-- ===== src/Freertos/Timer/Laws.antt =====
-- Starting and stopping the timers of targets/freertos/os_timer.c and os_port.h.
use poski.Base.{
  ℕ, ◌+◌, ◌-◌, ◌<◌, ◌≡◌, refl, ap, true, false, Bool-cases, inl, inr, some, arith, u32, ltb, ◌==◌,
  if◌then◌else◌, Outcome, done,
}
use poski.Osal.ErrorCode.{ok, enomem}
use poski.Freertos.Timer.{
  TimerApi, Timer, pos_timer_start, pos_timer_stop, pos_timer_is_active, pos_timer_remaining_ticks,
}

module _ (A : TimerApi) where
  open A use {
    State, in_isr, active, now, stop, change_period, reset, stop_lem, change_period_lem, reset_lem,
  }

  -- A stop that the kernel accepts stops the timer, and returns POS_ENOMEM; one that it refuses returns
  -- POS_OK.
  pub stop-enomem :
      (t : Timer) (h : ℕ) (s : State)
      → t.handle ≡ some h
      → (s' : State) × (pos_timer_stop A t s ≡ done (if (stop h s).0 then enomem else ok, s'))
        × ((stop h s).0 ≡ true → pos_timer_is_active A t s' ≡ done false)
  unfolding pos_timer_stop pos_timer_is_active
  stop-enomem t h s e = elim (Bool-cases (stop h s).0) [
    | inl p ↦ ((stop h s).1, rw (e, p) refl, λ q. rw (e, (stop_lem h s).0 q) refl)
    | inr p ↦ ((stop h s).1, rw (e, p) refl, λ q. rw (e, (stop_lem h s).0 q) refl)
  ]

  -- In a task, if the kernel accepts the commands, a start for some ticks returns POS_OK with the timer
  -- active, and as many ticks left, or 1 for 0, if the counter of 32 bits does not overflow until then.
  pub start-remaining_ticks :
      (t : Timer) (h ticks : ℕ) (s : State)
      → t.handle ≡ some h
      → in_isr s ≡ false
      → ((n : ℕ) (u : State) → (change_period h n u).0 ≡ true)
      → ((u : State) → (reset h u).0 ≡ true)
      → now s + (if ticks == 0 then 1 else ticks) < 4294967296
      → (s' : State) × (pos_timer_start A t ticks s ≡ done (ok, s'))
        × (pos_timer_is_active A t s' ≡ done true)
        × (pos_timer_remaining_ticks A t (now s) s' ≡ done (if ticks == 0 then 1 else ticks))
  unfolding pos_timer_start pos_timer_is_active pos_timer_remaining_ticks
  start-remaining_ticks t h ticks s e task changes resets fits =
      let n = if ticks == 0 then 1 else ticks in
      let s1 = (stop h s).1 in
      let s2 = (change_period h n s1).1 in
      let (p, c) = change_period_lem h n s1 (changes n s1) in
      let (a, x) = reset_lem h s2 (resets s2) in
      (
        (reset h s2).1,
        rw (e, task) refl,
        rw (e, a) refl,
        rw (e, x, c, p, (stop_lem h s).2) (left (now s) n (ground arith) fits),
      )
    where
      left :
          (time n : ℕ)
          → 0 < n
          → time + n < 4294967296
          → ◌≡◌ {A = Outcome ℕ}
              (done (if ltb time (u32 (time + n)) then u32 (time + n) - time else 0))
              (done n)
      left time n pos fits = ap done (ground arith)
