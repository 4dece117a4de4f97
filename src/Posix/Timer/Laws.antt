-- ===== src/Posix/Timer/Laws.antt =====
-- targets/posix/os_timer.c: the expiry time that is asked for, `tm_active`, and the remaining ticks.
use poski.Base.{
  ℕ, Bool, ◌+◌, ◌*◌, ◌<◌, ◌≤◌, ◌≡◌, ◌≢◌, refl, ◌∙◌, true, false, Bool-cases, inl, inr, some, arith,
  pos, ◌==◌, ◌==ℤ◌, ne→==ℤ, if◌then◌else◌, u32, done, ◌⊎◌,
}
use poski.Osal.ErrorCode.{PosError, ok, einval}
use poski.Posix.Time.{nanos, IsNormal, pos_time_get}
use poski.Posix.Timer.{
  Timer, Itimerspec, zero_time, is_zero, TimerApi, expiry, settime, pos_timer_start, pos_timer_stop,
  pos_timer_remaining_ticks, pos_timer_is_active,
}

-- The expiry time is as many milliseconds as ticks, in a form that the system accepts, and for a
-- positive number it arms the timer; the timer does not repeat.
pub expiry_lem :
    (A : TimerApi) (ticks : ℕ)
    → (nanos (expiry A ticks).value ≡ ticks * 1_000_000)
      × IsNormal (expiry A ticks).value
      × ((0 < ticks) → is_zero (expiry A ticks).value ≡ false)
      × ((expiry A ticks).interval ≡ zero_time)
unfolding expiry
expiry_lem A ticks = (omega arith, omega arith, λ h. ground arith, refl)

module _ (A : TimerApi) where
  open A use {State, armed, timer_settime, timer_gettime, monotonic, settime_lem}

  -- Either the call returns POS_OK and the flag and the POSIX timer are both as asked, or it returns
  -- POS_EINVAL and the POSIX timer is as it was.
  abbrev pub Sets : Bool → ℕ → State → PosError × Timer × State → Type 0
  Sets b id s (e, t', s') =
      ((e ≡ ok) × (t'.tm_active ≡ b) × (armed id s' ≡ b))
      ⊎ ((e ≡ einval) × (armed id s' ≡ armed id s))

  settime-Sets :
      (id : ℕ) (its : Itimerspec) (t : Timer) (s : State)
      → t.tm_active ≡ true
      → is_zero its.value ≡ false
      → Sets true id s (settime A id its t s)
  unfolding settime
  settime-Sets id its t s active nonzero =
      elim (Bool-cases ((timer_settime id its s).0 ==ℤ pos 0)) [
        | inl z ↦ rw z (inl (refl, active, settime_lem id its s ∙ rw (z, nonzero) refl))
        | inr z ↦ rw z (inr (refl, settime_lem id its s ∙ rw z refl))
      ]

  -- On an initialised timer, while the clock can be read, a start returns. If it returns POS_OK, then
  -- `tm_active` is true and the POSIX timer armed, whether or not it was; otherwise it returns
  -- POS_EINVAL and has not changed whether the POSIX timer is armed.
  pub start-Sets :
      (t : Timer) (id ticks now : ℕ) (s : State)
      → t.tm_timer ≡ some id
      → pos_time_get (monotonic s) ≡ done now
      → (e : PosError) × (t' : Timer) × (s' : State) × (pos_timer_start A t ticks s
          ≡ done (e, t', s'))
        × (t'.tm_timer ≡ some id)
        × Sets true id s (e, t', s')
  unfolding pos_timer_start settime
  start-Sets t id ticks now s e clock =
      let n = if ticks == 0 then 1 else ticks in
      let t1 = record t { tm_ticks = u32 (now + n); tm_active = true } in
      let after = settime A id (expiry A n) t1 s in
      (
        after.0,
        after.1,
        after.2,
        rw (e, clock) refl,
        e,
        settime-Sets id (expiry A n) t1 s refl ((expiry_lem A n).2 (ground arith)),
      )

  -- A stop that returns POS_OK leaves `tm_active` false and the POSIX timer disarmed; one that returns
  -- POS_EINVAL changes neither.
  pub stop-Sets :
      (t : Timer) (id : ℕ) (s : State)
      → t.tm_timer ≡ some id
      → let (e, t', s') = pos_timer_stop A t s in
        Sets false id s (e, t', s') × (e ≡ einval → t' ≡ t)
  unfolding pos_timer_stop
  stop-Sets t id s e =
      let its : Itimerspec = record { interval = zero_time; value = zero_time } in
      elim (Bool-cases ((timer_settime id its s).0 ==ℤ pos 0)) [
        | inl z ↦ rw (e, z) (inl (refl, refl, settime_lem id its s ∙ rw z refl), λ h. cc)
        | inr z ↦ rw (e, z) (inr (refl, settime_lem id its s ∙ rw z refl), λ h. refl)
      ]

  -- A start that the system refuses returns POS_EINVAL and yet leaves `tm_active` true.
  pub start_refused-active :
      (t : Timer) (id ticks now : ℕ) (s : State)
      → t.tm_timer ≡ some id
      → pos_time_get (monotonic s) ≡ done now
      → ((its : Itimerspec) → (timer_settime id its s).0 ≢ pos 0)
      → (t' : Timer) × (s' : State) × (pos_timer_start A t ticks s ≡ done (einval, t', s'))
        × (pos_timer_is_active t' ≡ true)
  unfolding pos_timer_start pos_timer_is_active
  start_refused-active t id ticks now s e clock refused = (
    record t { tm_ticks = u32 (now + (if ticks == 0 then 1 else ticks)); tm_active = true },
    (timer_settime id (expiry A (if ticks == 0 then 1 else ticks)) s).1,
    rw (e, clock, ne→==ℤ _ (pos 0) (refused (expiry A (if ticks == 0 then 1 else ticks)))) refl,
    refl,
  )

  -- A timer that has its whole duration left, as after a start, has no tick left according to
  -- `pos_timer_remaining_ticks`, if the clock has counted as many ticks.
  pub remaining_ticks-expiry :
      (id ticks now : ℕ) (s : State)
      → timer_gettime id s ≡ expiry A ticks
      → ticks ≤ now
      → now < 4294967296
      → pos_timer_remaining_ticks A id now s ≡ 0
  unfolding pos_timer_remaining_ticks expiry
  remaining_ticks-expiry id ticks now s e le lt = rw e (ground arith)
