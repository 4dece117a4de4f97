-- ===== src/RingPthread/Condvar.antt =====
-- What RingPthread relies on of the threads that wait on its condition variable, as POSIX documents
-- it: a waiting thread sleeps until a signal wakes it, and it has then still to take the mutex.
use poski.Base.{ℕ, suc, ◌+◌, ◌<◌, ◌≡◌, ◌≢◌, ◌⊎◌, none, some}
use poski.RingPthread.Monitor.{Monitor}

module _ (M : Monitor) where
  open M use {State, owner, depth, Lock, Unlock, Signal, Wait, Wake}

  pub record Condvar : Type 1 where
    -- The thread is in `pthread_cond_wait`.
    pub Blocked : State → ℕ → Type 0
    pub asleep : State → ℕ  -- how many of these threads no signal has woken yet
    pub woken : State → ℕ  -- how many of them one has woken, and do not have the mutex yet
    pub counted : (t : ℕ) (m : State) → Blocked m t → 0 < asleep m + woken m
    -- A lock or an unlock concerns none of them.
    pub lock_asleep : (t : ℕ) (m m' : State) → Lock t m m' → asleep m' ≡ asleep m
    pub lock_woken : (t : ℕ) (m m' : State) → Lock t m m' → woken m' ≡ woken m
    pub unlock_asleep : (t : ℕ) (m m' : State) → Unlock t m m' → asleep m' ≡ asleep m
    pub unlock_woken : (t : ℕ) (m m' : State) → Unlock t m m' → woken m' ≡ woken m
    -- A signal wakes at least one sleeping thread; if none sleeps, it has no effect later on.
    pub signal_some : (t : ℕ) (m m' : State) → Signal t m m' → 0 < asleep m → woken m < woken m'
    pub signal_none : (t : ℕ) (m m' : State) → Signal t m m' → asleep m ≡ 0 → asleep m' ≡ 0
    -- A wait ends after a signal, or for no reason.
    pub wait_woken : (t : ℕ) (m m' : State) → Wait t m m' → woken m' ≡ woken m
    pub wait_blocks : (t : ℕ) (m m' : State) → Wait t m m' → Blocked m' t
    pub wake_counts :
        (t : ℕ) (m m' : State)
        → Wake t m m'
        → ((woken m ≡ suc (woken m')) × (asleep m' ≡ asleep m))
          ⊎ ((asleep m ≡ suc (asleep m')) × (woken m' ≡ woken m))
    -- No call of one thread ends the wait of another.
    pub stays :
        (t i : ℕ) (m m' : State)
        → Lock t m m' ⊎ (Unlock t m m' ⊎ (Signal t m m' ⊎ (Wait t m m' ⊎ Wake t m m')))
        → i ≢ t
        → Blocked m i
        → Blocked m' i

  -- Which calls can return: a lock of a free mutex, what its owner does, and the wait of a thread that
  -- was woken, once the mutex is free. No other thread is blocked than those that wait.
  pub record Enabled (C : Condvar) : Type 1 where
    pub can_lock : (t : ℕ) (m : State) → owner m ≡ none → (m' : State) × Lock t m m'
    pub can_unlock :
        (t : ℕ) (m : State) → owner m ≡ some t → depth m ≡ 1 → (m' : State) × Unlock t m m'
    pub can_signal : (t : ℕ) (m : State) → owner m ≡ some t → (m' : State) × Signal t m m'
    pub can_wait :
        (t : ℕ) (m : State)
        → owner m ≡ some t
        → depth m ≡ 1
        → ¬ C.Blocked m t
        → (m' : State) × Wait t m m'
    pub can_wake :
        (m : State)
        → owner m ≡ none
        → 0 < C.woken m
        → (t : ℕ) × C.Blocked m t × ((m' : State) × Wake t m m')
    pub quiet :
        (t i : ℕ) (m m' : State)
        → Lock t m m' ⊎ (Unlock t m m' ⊎ Signal t m m')
        → C.Blocked m' i
        → C.Blocked m i
    pub only_self :
        (t i : ℕ) (m m' : State)
        → Wait t m m' ⊎ Wake t m m'
        → i ≢ t
        → C.Blocked m' i
        → C.Blocked m i
    pub ends : (t : ℕ) (m m' : State) → Wake t m m' → ¬ C.Blocked m' t
