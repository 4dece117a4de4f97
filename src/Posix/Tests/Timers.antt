-- ===== src/Posix/Tests/Timers.antt =====
-- Timers of a system whose clock stands still, and of one that accepts no time.
use poski.Base.{
  ℕ, ◌*◌, ◌<◌, ◌≡◌, refl, Bool, true, false, some, arith, ℤ, pos, negsuc, ◌==ℤ◌, ◌==◌,
  if◌then◌else◌, done, assert_failed,
}
use poski.Osal.ErrorCode.{PosError, ok, einval}
use poski.Posix.Time.{Timespec, nanos, IsNormal, pos_time_get}
use poski.Posix.Timer.{
  Timer, Itimerspec, is_zero, zero_time, TimerApi, expiry, pos_timer_init, pos_timer_start,
  pos_timer_remaining_ticks, pos_timer_is_active,
}
use poski.Posix.Apple
use poski.Posix.Apple.Laws.{start-once}
use poski.Posix.Timer.Laws.{
  expiry_lem, Sets, start-Sets, start_refused-active, remaining_ticks-expiry,
}

-- Timer 1 of the system, and its setting.
pub record System : Type 0 where
  pub setting : Itimerspec

abbrev pub off : System
off = record { setting = record { interval = zero_time; value = zero_time } }

abbrev pub clock : Timespec
clock = record { sec = 3600; nsec = 500_000_000 }

abbrev armed : ℕ → System → Bool
armed id s = if id == 1 then (if is_zero s.setting.value then false else true) else false

abbrev settime : ℕ → Itimerspec → System → ℤ × System
settime id its s = if id == 1 then (pos 0, record { setting = its }) else (negsuc 0, s)

pub settime_lem :
    (id : ℕ) (its : Itimerspec) (s : System)
    → armed id (settime id its s).1 ≡ (
        if (settime id its s).0 ==ℤ pos 0
        then (if is_zero its.value then false else true)
        else armed id s)
settime_lem id its s = ground arith

abbrev pub timers : TimerApi
timers = record {
  State = System;
  armed = armed;
  timer_create = λ s. (some 1, s);
  timer_settime = settime;
  timer_gettime = λ id s. s.setting;
  monotonic = λ s. some clock;
  settime_lem = settime_lem;
}

-- A system that refuses every setting.
abbrev refusing : TimerApi
refusing = record {
  State = Unit;
  armed = λ id s. false;
  timer_create = λ s. (some 1, s);
  timer_settime = λ id its s. (negsuc 0, s);
  timer_gettime = λ id s. record { interval = zero_time; value = zero_time };
  monotonic = λ s. some clock;
  settime_lem = λ id its s. refl;
}

abbrev pub timer : Timer
timer = record { tm_cb = 7; tm_ticks = 0; tm_timer = some 1; tm_active = false; tm_arg = 9 }

init_timer : pos_timer_init timers 7 9 off ≡ (ok, timer, off)
unfolding pos_timer_init
init_timer = refl

expiry_lem_example :
    (nanos (expiry timers 1500).value ≡ 1500 * 1_000_000)
    × IsNormal (expiry timers 1500).value
    × ((0 < 1500) → is_zero (expiry timers 1500).value ≡ false)
    × ((expiry timers 1500).interval ≡ zero_time)
expiry_lem_example = expiry_lem timers 1500

clock_reads : pos_time_get (some clock) ≡ done 3_600_500
unfolding pos_time_get
clock_reads = refl

start-Sets_example :
    (e : PosError) × (t' : Timer) × (s' : System) × (pos_timer_start timers timer 1500 off
      ≡ done (e, t', s'))
    × (t'.tm_timer ≡ some 1)
    × Sets timers true 1 off (e, t', s')
start-Sets_example = start-Sets timers timer 1 1500 3_600_500 off refl clock_reads

start_refused-active_example :
    (t' : Timer) × (s' : Unit {0}) × (pos_timer_start refusing timer 1500 tt
      ≡ done (einval, t', s'))
    × (pos_timer_is_active t' ≡ true)
start_refused-active_example =
    start_refused-active refusing timer 1 1500 3_600_500 tt refl clock_reads (λ its h. cc)

remaining_ticks-expiry_example :
    pos_timer_remaining_ticks timers 1 3_600_500 (record { setting = expiry timers 1500 }) ≡ 0
remaining_ticks-expiry_example =
    remaining_ticks-expiry timers 1 1500 3_600_500 (record { setting = expiry timers 1500 }) refl
      (omega arith) (omega arith)

-- The one dispatch source, 1.
pub record Source : Type 0 where
  pub cancelled : Bool
  pub suspended : Bool

abbrev made : Source
made = record { cancelled = false; suspended = true }

abbrev sources : Apple.TimerApi
sources = record {
  State = Source;
  cancelled = λ h s. s.cancelled;
  suspended = λ h s. s.suspended;
  clock = λ s. 1000;
  source_create = λ s. (some 1, made);
  set_timer = λ h n s. s;
  resume = λ h s. if s.suspended then done (record s { suspended = false }) else assert_failed;
  source_cancel = λ h s. record s { cancelled = true };
  create_lem = λ s h e. (refl, refl);
  set_timer_lem = λ h n s. (refl, refl);
  cancel_lem = λ h s. (refl, refl);
  resume_lem = λ h s e. (record s { suspended = false }, rw e refl, refl, refl);
  resume_again = λ h s e. rw e refl;
}

start-once_example :
    let (_, t0, s0) = Apple.pos_timer_init sources 7 9 made in
    (t : Timer) × (s1 : Source) × (Apple.pos_timer_start sources t0 1500 s0 ≡ done (ok, t, s1))
    × (t.tm_active ≡ true)
    × (s1.suspended ≡ false)
    × (s1.cancelled ≡ false)
    × (Apple.pos_timer_start sources t 2000 s1 ≡ assert_failed)
    × (let (_, t', s') = Apple.pos_timer_stop sources t s1 in
        Apple.pos_timer_start sources t' 2000 s' ≡ assert_failed)
    × (let (_, t', s') = Apple.pos_timer_cb sources t s1 in
        Apple.pos_timer_start sources t' 2000 s' ≡ assert_failed)
start-once_example = start-once sources 7 9 1 1500 2000 made refl
