-- ===== src/Posix/Timer/Late.antt =====
-- targets/posix/os_timer.c: the callback runs in a thread of its own (SIGEV_THREAD), and may come after
-- the timer was started again.
use poski.Base.{ℕ, ◌≡◌, refl, sym, ◌∙◌, subst, true, false, inl, inr, some, done, done_eq}
use poski.Osal.ErrorCode.{PosError, ok}
use poski.Posix.Time.{pos_time_get}
use poski.Posix.Timer.{Timer, TimerApi, pos_timer_start, pos_timer_cb, pos_timer_is_active}
use poski.Posix.Timer.Laws.{Sets, start-Sets}

module _ (A : TimerApi) where
  open A use {State, armed, monotonic}

  -- A timer expires, and is started again before its callback runs: afterwards it is marked as inactive
  -- and will expire.
  pub late_cb-inactive :
      (t : Timer) (id ticks now : ℕ) (s : State) (t' : Timer) (s' : State)
      → t.tm_timer ≡ some id
      → pos_time_get (monotonic s) ≡ done now
      → pos_timer_start A t ticks s ≡ done (ok, t', s')
      → (pos_timer_is_active (pos_timer_cb t').0 ≡ false) × (armed id s' ≡ true)
  unfolding pos_timer_is_active pos_timer_cb
  late_cb-inactive t id ticks now s t' s' e clock h =
      let (e1, t1, s1, r, _, sets) = start-Sets A t id ticks now s e clock in
      let same : ◌≡◌ {A = PosError × Timer × State} (e1, t1, s1) (ok, t', s') =
        done_eq _ _ (sym r ∙ h) in
      elim (subst (Sets A true id s) same sets) [
        | inl (_, _, on) ↦ (refl, on)
        | inr (refused, _) ↦ absurd (cc)
      ]
