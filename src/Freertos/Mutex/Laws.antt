-- ===== src/Freertos/Mutex/Laws.antt =====
-- targets/freertos/os_mutex.c against the interface Osal.Mutex.
use poski.Base.{
  ℕ, suc, ◌≡◌, refl, ◌∙◌, Bool, true, false, Bool-cases, inl, inr, Option, some, if◌then◌else◌,
  Outcome, done, assert_failed, undefined, blocked, ◌>>=◌, Ensures,
}
use poski.Osal.ErrorCode.{ok, timeout}
use poski.Osal.Mutex
use poski.Osal.Mutex.{Locks, Unlocks}
use poski.Freertos.Mutex.{MutexApi, pos_mutex_lock, pos_mutex_unlock}

module _ (A : MutexApi) where
  open A use {State, in_isr, holds, take_recursive, give_recursive}

  abbrev mutex_at : ℕ → Option poski.Freertos.Mutex.Mutex
  mutex_at h = some (record { handle = some h })

  mapped-Locks :
      (h n : ℕ) (m : Outcome (Bool × State))
      → Ensures {A = Bool × State} (λ p. holds h p.1 ≡ (if p.0 then suc n else n)) m
      → Ensures (Locks (holds h) n) (m >>= λ p. done (if p.0 then ok else timeout, p.1))
  mapped-Locks h n (done (true, s)) t = t
  mapped-Locks h n (done (false, s)) t = t
  mapped-Locks h n assert_failed t = tt
  mapped-Locks h n undefined t = tt
  mapped-Locks h n blocked t = tt

  -- The calling task holds the mutex once more exactly if the lock ends with POS_OK.
  pub lock-Locks :
      (h tmo : ℕ) (s : State)
      → Ensures (Locks (holds h) (holds h s)) (pos_mutex_lock A (mutex_at h) tmo s)
  unfolding pos_mutex_lock
  lock-Locks h tmo s = elim (Bool-cases (in_isr s)) [
    | inl e ↦ rw e tt
    | inr e ↦ rw e (mapped-Locks h (holds h s) (take_recursive h tmo s) (A.take_lem h tmo s))
  ]

  -- It holds the mutex once less exactly if the unlock does; otherwise the result is POS_BAD_MUTEX.
  pub unlock-Unlocks :
      (h : ℕ) (s : State)
      → Ensures (Unlocks (holds h) (holds h s)) (pos_mutex_unlock A (mutex_at h) s)
  unfolding pos_mutex_unlock
  unlock-Unlocks h s = elim (Bool-cases (in_isr s)) [
    | inl e ↦ rw e tt
    | inr e ↦ rw e (elim (Bool-cases (give_recursive h s).0) [
      | inl g ↦ rw g (A.give_lem h s ∙ rw g refl)
      | inr g ↦ rw g (A.give_lem h s ∙ rw g refl)
    ])
  ]

  abbrev pub freertos_mutex : ℕ → Mutex.Mutex
  freertos_mutex h = record {
    State = State;
    holds = holds h;
    lock = pos_mutex_lock A (mutex_at h);
    unlock = pos_mutex_unlock A (mutex_at h);
    lock_lem = lock-Locks h;
    unlock_lem = unlock-Unlocks h;
  }
