-- ===== src/Posix/Timer.antt =====
-- targets/posix/os_timer.c, the branch for POSIX timers, and struct pos_timer of poski/osal/os_time.h.
pub mod Laws
pub mod Contract
pub mod Late
use poski.Base.{
  ℕ, ◌+◌, ◌-◌, ◌*◌, ◌/◌, ◌%◌, ◌^◌, ◌≡◌, Bool, true, false, Option, none, some, ℤ, pos, ◌==◌, ◌==ℤ◌,
  ltb, u32, if◌then◌else◌, Outcome, done, ◌>>=◌,
}
use poski.Osal.ErrorCode.{PosError, ok, einval, error}
use poski.Posix.Time.{Timespec, pos_time_get, pos_time_ms_to_ticks}

-- `struct pos_timer`. A callback and its argument are numbers; `tm_timer` is the POSIX timer, `none`
-- for the null of a cleared object.
pub record Timer : Type 0 where
  pub tm_cb : ℕ
  pub tm_ticks : ℕ
  pub tm_timer : Option ℕ
  pub tm_active : Bool
  pub tm_arg : ℕ

-- `struct itimerspec`
pub record Itimerspec : Type 0 where
  pub interval : Timespec
  pub value : Timespec

abbrev pub zero_time : Timespec
zero_time = record { sec = 0; nsec = 0 }

abbrev pub is_zero : Timespec → Bool
is_zero t = if t.sec == 0 then t.nsec == 0 else false

-- The POSIX functions, on the state of the system; `armed` is whether a timer will expire. POSIX
-- documents that setting a value other than 0 arms the timer, and 0 disarms it, and that a failure
-- changes nothing.
pub record TimerApi : Type 1 where
  pub State : Type 0
  pub armed : ℕ → State → Bool
  -- The identifier that `timer_create` returns, if it succeeds.
  pub timer_create : State → Option ℕ × State
  pub timer_settime : ℕ → Itimerspec → State → ℤ × State
  pub timer_gettime : ℕ → State → Itimerspec
  pub monotonic : State → Option Timespec  -- `clock_gettime(CLOCK_MONOTONIC)`
  pub settime_lem :
      (id : ℕ) (its : Itimerspec) (s : State)
      → armed id (timer_settime id its s).1 ≡ (
          if (timer_settime id its s).0 ==ℤ pos 0
          then (if is_zero its.value then false else true)
          else armed id s)

module _ (A : TimerApi) where
  open A use {State, timer_create, timer_settime, timer_gettime, monotonic}

  -- The identifier is not set if `timer_create` fails.
  unfoldable pub pos_timer_init : ℕ → ℕ → State → PosError × Timer × State
  pos_timer_init tm_cb tm_arg s =
      let (id, s') = timer_create s in
      (
        elim id [ none ↦ error | some _ ↦ ok ],
        record { tm_cb = tm_cb; tm_ticks = 0; tm_timer = id; tm_active = false; tm_arg = tm_arg },
        s',
      )

  -- The relative expiry time of so many ticks.
  unfoldable pub expiry : ℕ → Itimerspec
  expiry ticks = record {
    interval = zero_time;
    value = record { sec = ticks / 1000; nsec = ticks % 1000 * 1_000_000 % 1_000_000_000 };
  }

  unfoldable pub settime : ℕ → Itimerspec → Timer → State → PosError × Timer × State
  settime id its t s =
      let (ret, s') = timer_settime id its s in (if ret ==ℤ pos 0 then ok else einval, t, s')

  unfoldable pub pos_timer_start : Timer → ℕ → State → Outcome (PosError × Timer × State)
  unfolding expiry settime
  pos_timer_start t ticks s = elim t.tm_timer [
    | none ↦ done (einval, t, s)
    | some id ↦
        let n = if ticks == 0 then 1 else ticks in
        pos_time_get (monotonic s) >>= λ now.
        done (settime id (expiry n) (record t { tm_ticks = u32 (now + n); tm_active = true }) s)
  ]

  unfoldable pub pos_timer_start_ms : Timer → ℕ → State → Outcome (PosError × Timer × State)
  unfolding pos_timer_start
  pos_timer_start_ms t duration s = pos_timer_start t (pos_time_ms_to_ticks duration) s

  unfoldable pub pos_timer_stop : Timer → State → PosError × Timer × State
  pos_timer_stop t s = elim t.tm_timer [
    | none ↦ (einval, t, s)
    | some id ↦
        let (ret, s') = timer_settime id (record { interval = zero_time; value = zero_time }) s in
        if ret ==ℤ pos 0 then (ok, record t { tm_active = false }, s') else (einval, t, s')
  ]

  -- `tv_sec * 1000` is stored in a `uint32_t`.
  unfoldable pub pos_timer_remaining_ticks : ℕ → ℕ → State → ℕ
  pos_timer_remaining_ticks id now s =
      let exp = u32 ((timer_gettime id s).value.sec * 1000) in if ltb now exp then exp - now else 0

-- The callback of the system: the timer is no longer active when the user's callback runs, with its
-- argument.
unfoldable pub pos_timer_cb : Timer → Timer × ℕ × ℕ
pos_timer_cb t = (record t { tm_active = false }, t.tm_cb, t.tm_arg)

unfoldable pub pos_timer_is_active : Timer → Bool
pos_timer_is_active t = t.tm_active

unfoldable pub pos_timer_inited : Timer → PosError
pos_timer_inited t = elim t.tm_timer [ none ↦ einval | some _ ↦ ok ]

unfoldable pub pos_timer_get_ticks : Timer → ℕ
pos_timer_get_ticks t = t.tm_ticks

unfoldable pub pos_timer_arg_get : Timer → ℕ
pos_timer_arg_get t = t.tm_arg

unfoldable pub pos_timer_arg_set : Timer → ℕ → Timer
pos_timer_arg_set t arg = record t { tm_arg = arg }
