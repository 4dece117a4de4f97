-- ===== src/Posix/Time.antt =====
-- targets/posix/os_time.c and poski/osal/os_time.h: ticks and milliseconds, at 1000 ticks a second.
-- The C code computes in `double`. The products are below 2^53 and the quotients whole, so they are
-- exact; the sum of seconds and nanoseconds in ticks, where it fits 32 bits, is off by less than
-- 2^-21, and a fraction of a millisecond is a multiple of 10^-6, so its integral part is exact too.
use poski.Base.{
  ℕ, ◌+◌, ◌-◌, ◌*◌, ◌/◌, ◌%◌, ◌^◌, ◌<◌, ◌≤◌, ◌≡◌, Option, none, some, arith, ltb, Outcome, done,
  undefined, require, ◌>>=◌, ◌>>◌, Ensures, Bool-cases, inl, inr, ◌∙◌, false, if◌then◌else◌, ℤ, pos,
  ◌==ℤ◌,
}
use poski.Osal.ErrorCode.{PosError, is_ok}
use poski.Posix.Utils.{map_posix_to_osal_error, is_ok-map_posix}

-- `struct timespec`
pub record Timespec : Type 0 where
  pub sec : ℕ
  pub nsec : ℕ

abbrev pub nanos : Timespec → ℕ
nanos t = t.sec * 1_000_000_000 + t.nsec

-- What the clock functions return and take.
abbrev pub IsNormal : Timespec → Type 0
IsNormal t = t.nsec < 1_000_000_000

abbrev pub ticks_per_sec : ℕ
ticks_per_sec = 1000

-- INT32_MAX
abbrev pub time_forever : ℕ
time_forever = 2 ^ 31 - 1

-- `none` is a failure of `clock_gettime`. The conversion of a `double` to `uint32_t` is undefined
-- where it does not fit.
unfoldable pub pos_time_get : Option Timespec → Outcome ℕ
pos_time_get none = done 0
pos_time_get (some now) = do
  let ticks = now.sec * ticks_per_sec + now.nsec / (1_000_000_000 / ticks_per_sec)
  require (ltb ticks (2 ^ 32))
  done ticks

unfoldable pub pos_time_ms_to_ticks : ℕ → ℕ
pos_time_ms_to_ticks ms = ms * ticks_per_sec / 1000

unfoldable pub pos_time_ticks_to_ms : ℕ → ℕ
pos_time_ticks_to_ms ticks = ticks * 1000 / ticks_per_sec

unfoldable pub pos_time_get_ms : Option Timespec → Outcome ℕ
unfolding pos_time_get pos_time_ticks_to_ms
pos_time_get_ms now = pos_time_get now >>= λ ticks. done (pos_time_ticks_to_ms ticks)

-- Both conversions are exact inverses.
pub ticks_to_ms-ms_to_ticks :
    (n : ℕ)
    → (pos_time_ticks_to_ms (pos_time_ms_to_ticks n) ≡ n)
      × (pos_time_ms_to_ticks (pos_time_ticks_to_ms n) ≡ n)
unfolding pos_time_ms_to_ticks pos_time_ticks_to_ms
ticks_to_ms-ms_to_ticks n = omega arith

-- In the first 2^32 milliseconds of the clock its reading is the whole milliseconds that have passed.
pub time_get-nanos :
    (now : Timespec)
    → IsNormal now
    → nanos now < 2 ^ 32 * 1_000_000
    → pos_time_get_ms (some now) ≡ done (nanos now / 1_000_000)
unfolding pos_time_get_ms
time_get-nanos now n h = ground arith

-- From then on, after some 49.7 days, the conversion is undefined.
pub time_get_overflow :
    (now : Timespec)
    → 2 ^ 32 * 1_000_000 ≤ nanos now
    → IsNormal now
    → pos_time_get (some now) ≡ undefined
unfolding pos_time_get
time_get_overflow now h n = ground arith

-- The deadline of a timed wait, as os_sem.c and os_mutex.c compute it: the seconds and nanoseconds
-- of the timeout are added, with no carry.
unfoldable pub deadline : Timespec → ℕ → Timespec
deadline now timeout = record {
  sec = now.sec + timeout / 1000;
  nsec = now.nsec + timeout % 1000 * 1_000_000;
}

-- The deadline lies the timeout ahead, in nanoseconds.
pub nanos-deadline :
    (now : Timespec) (timeout : ℕ) → nanos (deadline now timeout) ≡ nanos now + timeout * 1_000_000
unfolding deadline
nanos-deadline now timeout = omega arith

-- `ret = clock_gettime(CLOCK_REALTIME, &wait); SuccessOrExit(ret);`, the deadline, and what waits for
-- it.
abbrev pub with_deadline :
    {S : Type 0}
    → ℤ × Timespec × S
    → ℕ
    → (Timespec → S → Outcome (PosError × S))
    → Outcome (PosError × S)
with_deadline (ret, now, s) timeout wait =
    if ret ==ℤ pos 0 then wait (deadline now timeout) s else done (map_posix_to_osal_error ret, s)

-- Either the clock failed, which is reported and changes nothing, or the wait was made.
pub with_deadline-Ensures :
    {S : Type 0} (P : PosError × S → Type 0) (c : ℤ × Timespec × S) (timeout : ℕ)
    (wait : Timespec → S → Outcome (PosError × S))
    → ((e : PosError) → is_ok e ≡ false → P (e, c.2))
    → ((t : Timespec) → Ensures P (wait t c.2))
    → Ensures P (with_deadline c timeout wait)
with_deadline-Ensures P (ret, now, s) timeout wait failed waited =
    elim (Bool-cases (ret ==ℤ pos 0)) [
      | inl e ↦ rw e (waited (deadline now timeout))
      | inr e ↦ rw e (failed (map_posix_to_osal_error ret) (is_ok-map_posix ret ∙ e))
    ]
