-- ===== src/Freertos/Timer.antt =====
-- targets/freertos/os_timer.c, and the timer functions of os_port.h. A null handle is caught by an
-- assertion, here or in the kernel.
pub mod Laws
pub mod Contract
use poski.Base.{
  ℕ, ◌+◌, ◌-◌, ◌≡◌, Bool, true, false, Option, none, some, u32, ltb, ◌==◌, ◌||◌, if◌then◌else◌,
  Outcome, done, ◌>>=◌,
}
use poski.Osal.ErrorCode.{PosError, ok, error_of}
use poski.Freertos.Sem.{handle_of}
use poski.Freertos.Time.{pos_time_ms_to_ticks}

-- timers.h, on the state of the kernel: commands to the timer task, which here have been carried out
-- when they return; a command passes or not.
pub record TimerApi : Type 1 where
  pub State : Type 0
  pub in_isr : State → Bool
  pub active : ℕ → State → Bool
  pub expiry : ℕ → State → ℕ
  pub period : ℕ → State → ℕ
  pub now : State → ℕ
  pub create : ℕ → State → Option ℕ × State
  pub stop : ℕ → State → Bool × State
  pub change_period : ℕ → ℕ → State → Bool × State
  pub reset : ℕ → State → Bool × State
  pub stop_from_isr : ℕ → State → Bool × Bool × State
  pub change_period_from_isr : ℕ → ℕ → State → Bool × Bool × State
  pub reset_from_isr : ℕ → State → Bool × Bool × State
  pub yield_from_isr : Bool → State → State
  pub stop_lem :
      (h : ℕ) (s : State)
      → ((stop h s).0 ≡ true → active h (stop h s).1 ≡ false)
        × (in_isr (stop h s).1 ≡ in_isr s)
        × (now (stop h s).1 ≡ now s)
  -- A command that passes starts the timer with its period, from now.
  pub change_period_lem :
      (h ticks : ℕ) (s : State)
      → (change_period h ticks s).0 ≡ true
      → (period h (change_period h ticks s).1 ≡ ticks) × (now (change_period h ticks s).1 ≡ now s)
  pub reset_lem :
      (h : ℕ) (s : State)
      → (reset h s).0 ≡ true
      → (active h (reset h s).1 ≡ true) × (expiry h (reset h s).1 ≡ u32 (now s + period h s))

-- `struct pos_timer`; functions and arguments are numbers.
pub record Timer : Type 0 where
  pub handle : Option ℕ
  pub func : ℕ
  pub arg : ℕ

module _ (A : TimerApi) where
  open A use {
    State, in_isr, active, expiry, now, create, stop, change_period, reset, stop_from_isr,
    change_period_from_isr, reset_from_isr, yield_from_isr,
  }

  unfoldable pub pos_timer_init : ℕ → ℕ → State → PosError × Timer × State
  pos_timer_init tm_cb tm_arg s =
      let (handle, s') = create 1 s in
      (ok, record { handle = handle; func = tm_cb; arg = tm_arg }, s')

  -- `ticks` is unsigned, so the test for a negative number never holds.
  unfoldable pub pos_timer_start : Timer → ℕ → State → Outcome (PosError × State)
  pos_timer_start timer ticks s = handle_of timer.handle >>= λ h.
      let n = if ticks == 0 then 1 else ticks in
      done (
        if in_isr s
        then (let (r1, woken1, s1) = stop_from_isr h s in
            let (r2, woken2, s2) = change_period_from_isr h n s1 in
            let (r3, woken3, s3) = reset_from_isr h s2 in
            (ok, yield_from_isr (woken1 || (woken2 || woken3)) s3))
        else (let (r1, s1) = stop h s in
            let (r2, s2) = change_period h n s1 in let (r3, s3) = reset h s2 in (ok, s3)))

  -- At `rate` ticks a second.
  unfoldable pub pos_timer_start_ms : ℕ → Timer → ℕ → State → Outcome (PosError × State)
  pos_timer_start_ms rate timer duration s =
      pos_timer_start timer (pos_time_ms_to_ticks rate duration) s

  -- The result of the kernel, pdPASS = 1 or pdFAIL = 0, is returned as it is.
  unfoldable pub pos_timer_stop : Timer → State → Outcome (PosError × State)
  pos_timer_stop tm s = handle_of tm.handle >>= λ h.
      let (ret, s') = stop h s in done (error_of (if ret then 1 else 0), s')

  unfoldable pub pos_timer_is_active : Timer → State → Outcome Bool
  pos_timer_is_active tm s = handle_of tm.handle >>= λ h. done (active h s)

  unfoldable pub pos_timer_get_ticks : Timer → State → Outcome ℕ
  pos_timer_get_ticks tm s = handle_of tm.handle >>= λ h. done (expiry h s)

  unfoldable pub pos_timer_remaining_ticks : Timer → ℕ → State → Outcome ℕ
  pos_timer_remaining_ticks timer time s =
      handle_of timer.handle >>= λ h. done (if ltb time (expiry h s) then expiry h s - time else 0)

  -- The callback that the kernel calls, with the call of the user's function that it makes.
  unfoldable pub pos_timer_cb : Timer → State → Outcome ((ℕ × ℕ) × State)
  pos_timer_cb timer s = pos_timer_stop timer s >>= λ p. done ((timer.func, timer.arg), p.1)

unfoldable pub pos_timer_arg_get : Timer → ℕ
pos_timer_arg_get timer = timer.arg

unfoldable pub pos_timer_arg_set : Timer → ℕ → Timer
pos_timer_arg_set timer arg = record timer { arg = arg }
