-- ===== src/RingPthread/Monitor.antt =====
-- What RingPthread relies on of a POSIX recursive mutex with one condition variable, as POSIX
-- documents them. The state of both is abstract; threads are numbered.
use poski.Base.{ℕ, ◌+◌, ◌≡◌, ◌⊎◌, Option, none, some}

pub record Monitor : Type 1 where
  pub State : Type 0
  pub owner : State → Option ℕ
  pub depth : State → ℕ  -- how often the owner has locked
  -- `pthread_mutex_lock` returns in a thread.
  pub Lock : ℕ → State → State → Type 0
  pub Unlock : ℕ → State → State → Type 0
  pub Signal : ℕ → State → State → Type 0
  -- `pthread_cond_wait` is entered, and returns.
  pub Wait : ℕ → State → State → Type 0
  pub Wake : ℕ → State → State → Type 0
  -- A mutex is locked if it is free, or once more by its owner.
  pub lock_lem :
      (t : ℕ) (m m' : State)
      → Lock t m m'
      → ((owner m ≡ none) × (owner m' ≡ some t) × (depth m' ≡ 1))
        ⊎ ((owner m ≡ some t) × (owner m' ≡ some t) × (depth m' ≡ depth m + 1))
  -- The last unlock frees it.
  pub unlock_lem :
      (t : ℕ) (m m' : State) → Unlock t m m' → owner m ≡ some t → depth m ≡ 1 → owner m' ≡ none
  pub signal_lem :
      (t : ℕ) (m m' : State) → Signal t m m' → (owner m' ≡ owner m) × (depth m' ≡ depth m)
  -- A wait frees the mutex, if it was locked once, and takes it back when it ends.
  pub wait_lem :
      (t : ℕ) (m m' : State) → Wait t m m' → owner m ≡ some t → depth m ≡ 1 → owner m' ≡ none
  pub wake_lem :
      (t : ℕ) (m m' : State) → Wake t m m' → (owner m ≡ none) × (owner m' ≡ some t) × (depth m' ≡ 1)
