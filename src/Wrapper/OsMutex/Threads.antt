-- ===== src/Wrapper/OsMutex/Threads.antt =====
-- OsMutex used by several threads: `Lock` and `Unlock` change `lock_depth_`, which is no atomic variable,
-- beside their calls of the native mutex, so that the steps of other threads come in between.
pub mod Guarded
use native.Mathlib.Decide.{ℕ_discrete}
use poski.Base.{
  ℕ, zero, suc, ◌+◌, ◌-◌, ◌<◌, ◌≤◌, ◌≡◌, ◌≢◌, ◌⊎◌, refl, sym, ap, ◌∙◌, subst, inl, inr, Bool, true,
  Option, none, some, some_eq, none-ne-some, arith, ltb, u32, eq→==, ne→==, Bool-cases,
}
use poski.RingPthread.Threads.{update}

-- A recursive mutex and the calls of it that end with POS_OK; one that fails leaves it alone.
pub record NativeMutex : Type 1 where
  pub State : Type 0
  pub owner : State → Option ℕ
  pub depth : State → ℕ
  pub Lock : ℕ → State → State → Type 0
  pub Unlock : ℕ → State → State → Type 0
  pub lock_lem :
      (t : ℕ) (m m' : State)
      → Lock t m m'
      → ((owner m ≡ none) × (owner m' ≡ some t) × (depth m' ≡ 1))
        ⊎ ((owner m ≡ some t) × (owner m' ≡ some t) × (depth m' ≡ suc (depth m)))
  pub unlock_lem :
      (t : ℕ) (m m' : State)
      → Unlock t m m'
      → owner m ≡ some t
      → ((depth m ≡ 1) × (owner m' ≡ none))
        ⊎ ((owner m' ≡ some t) × (depth m ≡ suc (depth m')) × (0 < depth m'))

pub data Pc : Type 0 where
  outside : Pc  -- in neither method, or before its first step
  counting : Pc  -- in `Lock`, before `lock_depth_++`
  releasing : Pc  -- in `Unlock`, after `lock_depth_--`
  reverting : Pc  -- in `Unlock`, after the call of the native mutex failed

abbrev pub pending : Pc → ℕ
pending outside = 0
pending counting = 1
pending releasing = 1
pending reverting = 1

module _ (M : NativeMutex) where
  open M use {State, owner, depth, Lock, Unlock, lock_lem, unlock_lem}

  pub record Shared : Type 0 where
    pub mutex : State
    pub lock_depth : ℕ
    pub pc : ℕ → Pc

  -- A step of thread `t`. Unlock is called by the thread that holds the mutex; a Lock that fails or
  -- waits takes no step.
  pub data Step (s : Shared) : Shared → Type 0 where
    lock_native :
        (t : ℕ) (m : State)
        → s.pc t ≡ outside
        → Lock t s.mutex m
        → Step s (record s { mutex = m; pc = update s.pc t counting })
    count_lock :
        (t : ℕ)
        → s.pc t ≡ counting
        → Step s (record s { lock_depth = u32 (s.lock_depth + 1); pc = update s.pc t outside })
    unlock_begin :
        (t : ℕ)
        → s.pc t ≡ outside
        → owner s.mutex ≡ some t
        → ltb 0 s.lock_depth ≡ true
        → Step s (record s { lock_depth = s.lock_depth - 1; pc = update s.pc t releasing })
    unlock_native :
        (t : ℕ) (m : State)
        → s.pc t ≡ releasing
        → Unlock t s.mutex m
        → Step s (record s { mutex = m; pc = update s.pc t outside })
    unlock_failed :
        (t : ℕ) → s.pc t ≡ releasing → Step s (record s { pc = update s.pc t reverting })
    revert :
        (t : ℕ)
        → s.pc t ≡ reverting
        → Step s (record s { lock_depth = u32 (s.lock_depth + 1); pc = update s.pc t outside })

  -- After `n` steps on a new object that nobody holds.
  pub data Reach (m : State) : ℕ → Shared → Type 0 where
    start : owner m ≡ none → Reach m 0 (record { mutex = m; lock_depth = 0; pc = λ _. outside })
    later : {n : ℕ} {s u : Shared} → Reach m n s → Step s u → Reach m (suc n) u
