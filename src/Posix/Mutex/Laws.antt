-- ===== src/Posix/Mutex/Laws.antt =====
-- targets/posix/os_mutex.c against the interface Osal.Mutex, and its deadlines.
use poski.Base.{
  ℕ, suc, ◌+◌, ◌*◌, ◌%◌, ◌≤◌, ◌≡◌, ◌≢◌, refl, sym, ap, ◌∙◌, subst, true, inl, inr, Bool-cases, ℤ,
  pos, ◌==◌, ◌==ℤ◌, ne→==, if◌then◌else◌, Outcome, done, assert_failed, undefined, blocked, ◌>>=◌,
  Ensures,
}
use poski.Osal.ErrorCode.{einval}
use poski.Osal.Mutex.{Mutex, Locks, Unlocks}
use poski.Posix.Utils.{map_posix_to_osal_error, is_ok-map_posix}
use poski.Posix.Time.{time_forever, deadline, with_deadline-Ensures}
use poski.Posix.Mutex.{MutexApi, timed_lock, pos_mutex_lock, pos_mutex_unlock}

module _ (A : MutexApi) where
  open A use {State, holds, is_busy, mutex_lock, clock_gettime, timedlock_invalid, clock_lem}

  pub mapped-Locks :
      (n : ℕ) (m : Outcome (ℤ × State))
      → Ensures {A = ℤ × State} (λ p. holds p.1 ≡ (if p.0 ==ℤ pos 0 then suc n else n)) m
      → Ensures (Locks holds n) (m >>= λ p. done (map_posix_to_osal_error p.0, p.1))
  mapped-Locks n (done p) h = h ∙ ap (λ b. if b then suc n else n) (sym (is_ok-map_posix p.0))
  mapped-Locks n assert_failed h = tt
  mapped-Locks n undefined h = tt
  mapped-Locks n blocked h = tt

  -- The calling thread holds the mutex once more exactly if the lock ends with POS_OK.
  pub lock-Locks :
      (timeout : ℕ) (s : State) → Ensures (Locks holds (holds s)) (pos_mutex_lock A timeout s)
  unfolding pos_mutex_lock
  lock-Locks timeout s = elim (Bool-cases (timeout == time_forever)) [
    | inl e ↦ rw e (mapped-Locks (holds s) (mutex_lock s) (A.lock_lem s))
    | inr e ↦ rw e (
        with_deadline-Ensures (Locks holds (holds s)) (clock_gettime s) timeout (timed_lock A)
          (λ err not_ok. rw not_ok (clock_lem s).0)
          (λ t.
            subst (λ n. Ensures (Locks holds n) (timed_lock A t (clock_gettime s).2))
              (clock_lem s).0 (mapped-Locks _ _ (A.timedlock_lem t (clock_gettime s).2))))
  ]

  -- It holds the mutex once less exactly if the unlock does.
  pub unlock-Unlocks : (s : State) → Ensures (Unlocks holds (holds s)) (pos_mutex_unlock A s)
  unfolding pos_mutex_unlock
  unlock-Unlocks s =
      A.unlock_lem s
      ∙ ap (λ b. if b then suc (holds (A.mutex_unlock s).1) else holds (A.mutex_unlock s).1)
          (sym (is_ok-map_posix (A.mutex_unlock s).0))

  -- A call with a timeout on a mutex that another thread holds fails at once with POS_EINVAL, instead
  -- of waiting, if its deadline needs a carry from the nanoseconds to the seconds.
  pub lock-einval :
      (timeout : ℕ) (s : State)
      → timeout ≢ time_forever
      → is_busy s ≡ true
      → (clock_gettime s).0 ≡ pos 0
      → 1_000_000_000 ≤ (clock_gettime s).1.nsec + timeout % 1000 * 1_000_000
      → (s' : State) × (pos_mutex_lock A timeout s ≡ done (einval, s'))
  unfolding pos_mutex_lock map_posix_to_osal_error deadline
  lock-einval timeout s tmo busy clock_ok carry =
      let (s', w) =
        timedlock_invalid (deadline (clock_gettime s).1 timeout) (clock_gettime s).2
          ((clock_lem s).1 ∙ busy) carry in
      (s', rw (ne→== timeout time_forever tmo, clock_ok, w) refl)

  abbrev pub posix_mutex : Mutex
  posix_mutex = record {
    State = State;
    holds = holds;
    lock = pos_mutex_lock A;
    unlock = pos_mutex_unlock A;
    lock_lem = lock-Locks;
    unlock_lem = unlock-Unlocks;
  }
