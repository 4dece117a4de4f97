-- ===== src/Wrapper/Tests/Mutexes.antt =====
-- Two threads and an OsMutex over a mutex that is its owner and how often it is locked.
use poski.Base.{ℕ, suc, ◌<◌, ◌≡◌, ◌≢◌, ◌⊎◌, refl, inl, inr, true, Option, none, some, arith, ltb}
use poski.RingPthread.Threads.{update}
use poski.Wrapper.OsMutex.Threads.{
  NativeMutex, outside, counting, releasing, Shared, lock_native, count_lock, unlock_begin, Reach,
  start, later,
}
use poski.Wrapper.OsMutex.Threads.Guarded.{Reach-Guarded}

record Mutex : Type 0 where
  owner : Option ℕ
  depth : ℕ

data Lock (t : ℕ) (m : Mutex) : Mutex → Type 0 where
  first : m.owner ≡ none → Lock t m (record { owner = some t; depth = 1 })
  again : m.owner ≡ some t → Lock t m (record { owner = some t; depth = suc m.depth })

data Unlock (t : ℕ) (m : Mutex) : Mutex → Type 0 where
  last : m.depth ≡ 1 → Unlock t m (record { owner = none; depth = 0 })
  nested : (n : ℕ) → m.depth ≡ suc (suc n) → Unlock t m (record { owner = some t; depth = suc n })

lock_lem :
    (t : ℕ) (m m' : Mutex)
    → Lock t m m'
    → ((m.owner ≡ none) × (m'.owner ≡ some t) × (m'.depth ≡ 1))
      ⊎ ((m.owner ≡ some t) × (m'.owner ≡ some t) × (m'.depth ≡ suc m.depth))
lock_lem t m _ (first e) = inl (e, refl, refl)
lock_lem t m _ (again e) = inr (e, refl, refl)

unlock_lem :
    (t : ℕ) (m m' : Mutex)
    → Unlock t m m'
    → m.owner ≡ some t
    → ((m.depth ≡ 1) × (m'.owner ≡ none))
      ⊎ ((m'.owner ≡ some t) × (m.depth ≡ suc m'.depth) × (0 < m'.depth))
unlock_lem t m _ (last e) o = inl (e, refl)
unlock_lem t m _ (nested n e) o = inr (refl, e, omega arith)

abbrev native : NativeMutex
native = record {
  State = Mutex;
  owner = λ m. m.owner;
  depth = λ m. m.depth;
  Lock = Lock;
  Unlock = Unlock;
  lock_lem = lock_lem;
  unlock_lem = unlock_lem;
}

abbrev free : Mutex
free = record { owner = none; depth = 0 }

abbrev held : ℕ → Mutex
held n = record { owner = some 4; depth = n }

-- Thread 4 has locked the object twice, and is in Unlock.
abbrev unlocking : Shared native
unlocking = record {
  mutex = held 2;
  lock_depth = 1;
  pc =
      update
        (update (update (update (update (λ _. outside) 4 counting) 4 outside) 4 counting) 4 outside)
        4 releasing;
}

unlocking-Reach : Reach native free 5 unlocking
unlocking-Reach =
    later
      (later
        (later
          (later (later (start refl) (lock_native 4 (held 1) refl (first refl)))
            (count_lock 4 refl))
          (lock_native 4 (held 2) refl (again refl)))
        (count_lock 4 refl))
      (unlock_begin 4 refl refl refl)

Reach-Guarded_example :
    ((i j : ℕ) → unlocking.pc i ≢ outside → unlocking.pc j ≢ outside → i ≡ j)
    × ((t : ℕ)
        → ◌≡◌ {A = Option ℕ} (some 4) (some t)
        → unlocking.pc t ≡ outside
        → (◌≡◌ {A = ℕ} 1 2) × (ltb 0 1 ≡ true))
    × (◌≡◌ {A = Option ℕ} (some 4) none → ◌≡◌ {A = ℕ} 1 0)
Reach-Guarded_example = Reach-Guarded native unlocking-Reach (omega arith)
