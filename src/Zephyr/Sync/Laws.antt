-- ===== src/Zephyr/Sync/Laws.antt =====
-- targets/zephyr/os_sem.c and os_mutex.c against the interfaces of Osal, the limit of a semaphore, and
-- polls.
use poski.Base.{
  ℕ, suc, ◌<◌, ◌≡◌, refl, sym, ap, ◌∙◌, true, Bool-cases, inl, inr, arith, ltb, ℤ, pos, ◌==ℤ◌,
  if◌then◌else◌, Outcome, done, assert_failed, undefined, blocked, ◌>>=◌, Ensures,
}
use poski.Osal.ErrorCode.{ok, error}
use poski.Osal.Semaphore.{Takes, Gives}
use poski.Osal.Mutex.{Mutex, Locks, Unlocks}
use poski.Zephyr.Utils.{kernel_timeout, result_of, is_ok-result_of}
use poski.Zephyr.Sync.{
  SemApi, pos_sem_take, pos_sem_give, MutexApi, pos_mutex_lock, pos_mutex_unlock,
}

module _ (A : SemApi) where
  open A use {State, tokens, limit, k_sem_take, k_sem_give}

  mapped-Takes :
      (n : ℕ) (m : Outcome (ℤ × State))
      → Ensures {A = ℤ × State}
          (λ p. n ≡ (if p.0 ==ℤ pos 0 then suc (tokens p.1) else tokens p.1))
          m
      → Ensures (Takes tokens n) (m >>= λ p. done (result_of p.0, p.1))
  mapped-Takes n (done p) h =
      h ∙ ap (λ b. if b then suc (tokens p.1) else tokens p.1) (sym (is_ok-result_of p.0))
  mapped-Takes n assert_failed h = tt
  mapped-Takes n undefined h = tt
  mapped-Takes n blocked h = tt

  -- A take takes a token exactly if it ends with POS_OK.
  pub sem_take-Takes :
      (tmo : ℕ) (s : State) → Ensures (Takes tokens (tokens s)) (pos_sem_take A tmo s)
  unfolding pos_sem_take
  sem_take-Takes tmo s =
      mapped-Takes (tokens s) (k_sem_take (kernel_timeout tmo) s)
        (A.take_lem (kernel_timeout tmo) s)

  -- Below the limit a give adds a token.
  pub sem_give-Gives :
      (s : State) → tokens s < limit s → Ensures (Gives tokens (tokens s)) (pos_sem_give A s)
  unfolding pos_sem_give
  sem_give-Gives s room = A.give_lem s ∙ below (tokens s) (limit s) room
    where
      below : (m n : ℕ) → m < n → (if ltb m n then suc m else m) ≡ suc m
      below m n h = ground arith

  -- At the limit it returns POS_OK as well, and the token is lost.
  pub sem_give-lost :
      (s : State)
      → tokens s ≡ limit s
      → (s' : State) × (pos_sem_give A s ≡ done (ok, s')) × (tokens s' ≡ tokens s)
  unfolding pos_sem_give
  sem_give-lost s full = (k_sem_give s, refl, A.give_lem s ∙ at (tokens s) (limit s) full)
    where
      at : (m n : ℕ) → m ≡ n → (if ltb m n then suc m else m) ≡ m
      at m n h = ground arith

  -- A poll of a semaphore without tokens returns POS_ERROR.
  pub poll-error :
      (s : State) → tokens s ≡ 0 → (s' : State) × (pos_sem_take A 0 s ≡ done (error, s'))
  unfolding pos_sem_take result_of kernel_timeout
  poll-error s none_left = let (s', p) = A.poll_lem s none_left in (s', rw p refl)

module _ (A : MutexApi) where
  open A use {State, holds, is_busy, k_mutex_lock, k_mutex_unlock}

  mapped-Locks :
      (n : ℕ) (m : Outcome (ℤ × State))
      → Ensures {A = ℤ × State} (λ p. holds p.1 ≡ (if p.0 ==ℤ pos 0 then suc n else n)) m
      → Ensures (Locks holds n) (m >>= λ p. done (result_of p.0, p.1))
  mapped-Locks n (done p) h = h ∙ ap (λ b. if b then suc n else n) (sym (is_ok-result_of p.0))
  mapped-Locks n assert_failed h = tt
  mapped-Locks n undefined h = tt
  mapped-Locks n blocked h = tt

  -- The calling thread holds the mutex once more exactly if the lock ends with POS_OK.
  pub mutex_lock-Locks :
      (tmo : ℕ) (s : State) → Ensures (Locks holds (holds s)) (pos_mutex_lock A tmo s)
  unfolding pos_mutex_lock
  mutex_lock-Locks tmo s =
      mapped-Locks (holds s) (k_mutex_lock (kernel_timeout tmo) s)
        (A.lock_lem (kernel_timeout tmo) s)

  -- It holds the mutex once less exactly if the unlock does.
  pub mutex_unlock-Unlocks : (s : State) → Ensures (Unlocks holds (holds s)) (pos_mutex_unlock A s)
  unfolding pos_mutex_unlock
  mutex_unlock-Unlocks s = elim (Bool-cases ((k_mutex_unlock s).0 ==ℤ pos 0)) [
    | inl e ↦ rw e (A.unlock_lem s ∙ rw e refl)
    | inr e ↦ rw e (A.unlock_lem s ∙ rw e refl)
  ]

  -- A poll of a mutex that another thread holds returns POS_ERROR.
  pub busy_poll-error :
      (s : State) → is_busy s ≡ true → (s' : State) × (pos_mutex_lock A 0 s ≡ done (error, s'))
  unfolding pos_mutex_lock result_of kernel_timeout
  busy_poll-error s busy = let (s', p) = A.poll_lem s busy in (s', rw p refl)

  abbrev pub zephyr_mutex : Mutex
  zephyr_mutex = record {
    State = State;
    holds = holds;
    lock = pos_mutex_lock A;
    unlock = pos_mutex_unlock A;
    lock_lem = mutex_lock-Locks;
    unlock_lem = mutex_unlock-Unlocks;
  }
