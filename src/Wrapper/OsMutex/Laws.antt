-- ===== src/Wrapper/OsMutex/Laws.antt =====
-- The depth of OsMutex, and how often the task holds the native mutex.
use poski.Base.{
  some, ℕ, zero, suc, ◌+◌, ◌-◌, ◌<◌, ◌≤◌, ◌≡◌, refl, sym, subst, Bool, true, false, Bool-cases, inl,
  inr, arith, u32, ltb, if◌then◌else◌, done, Ensures, Ensures-then, Ensures-assert,
}
use poski.Osal.ErrorCode.{PosError, ok, is_ok}
use poski.Osal.Mutex.{Mutex, Locks, Unlocks}
use poski.Wrapper.OsMutex.{OsMutex, init, destroy, lock_it, unlock_it}

-- The arithmetic of the counter of 32 bits.
up :
    (n d h h' : ℕ) (b : Bool)
    → (d ≡ h) × (d ≤ n)
    → n < 4294967295
    → h' ≡ (if b then suc h else h)
    → ((if b then u32 (d + 1) else d) ≡ h') × ((if b then u32 (d + 1) else d) ≤ suc n)
up n d h h' true (e, le) lt l = (omega arith, omega arith)
up n d h h' false (e, le) lt l = (omega arith, omega arith)

down :
    (n d h h' : ℕ) (b : Bool)
    → (d ≡ h) × (d ≤ n)
    → n < 4294967296
    → 0 < d
    → h ≡ (if b then suc h' else h')
    → ((if b then d - 1 else u32 (d - 1 + 1)) ≡ h') × ((if b then d - 1 else u32 (d - 1 + 1)) ≤ n)
down n d h h' true (e, le) lt p l = (omega arith, omega arith)
down n d h h' false (e, le) lt p l = (omega arith, omega arith)

positive : (d : ℕ) → ltb 0 d ≡ true → 0 < d
positive d e = ground arith

zero_depth : (d : ℕ) → ltb 0 d ≡ false → d ≡ 0
zero_depth d e = ground arith

module _ (M : Mutex) where
  open M use {State, holds, lock, unlock, lock_lem, unlock_lem}

  -- The depth is the number of locks, and at most `n`.
  abbrev pub Counts : ℕ → OsMutex M → Type 0
  Counts n m = (m.lock_depth ≡ holds m.mutex) × (m.lock_depth ≤ n)

  abbrev pub CountsAfter : ℕ → PosError × OsMutex M → Type 0
  CountsAfter n p = Counts n p.1

  pub lock-Counts :
      (n tmo : ℕ) (m : OsMutex M)
      → Counts n m
      → n < 4294967295
      → Ensures (CountsAfter (suc n)) (lock_it M tmo m)
  unfolding lock_it
  lock-Counts n tmo m c room =
      Ensures-then (Locks holds (holds m.mutex)) (CountsAfter (suc n)) (lock tmo m.mutex) _
        (lock_lem tmo m.mutex)
        (λ p l. up n m.lock_depth (holds m.mutex) (holds p.1) (is_ok p.0) c room l)

  pub unlock-Counts :
      (n : ℕ) (m : OsMutex M)
      → Counts n m
      → n < 4294967296
      → Ensures (CountsAfter n) (unlock_it M m)
  unfolding unlock_it
  unlock-Counts n m c lt = elim (Bool-cases (ltb 0 m.lock_depth)) [
    | inl e ↦ rw e (
        Ensures-then (Unlocks holds (holds m.mutex)) (CountsAfter n) (unlock m.mutex) _
          (unlock_lem m.mutex)
          (λ p l.
            down n m.lock_depth (holds m.mutex) (holds p.1) (is_ok p.0) c lt
              (positive m.lock_depth e) l))
    | inr e ↦ rw e tt
  ]

  pub init-Counts :
      (err : PosError) (b : Bool) (tmo : ℕ) (s : State)
      → holds s ≡ 0
      → Ensures (Counts 1) (init M err b tmo s)
  unfolding init
  init-Counts err true tmo s free = Ensures-assert (Counts 1) (is_ok err) _ (λ _.
      Ensures-then (Locks holds (holds s)) (Counts 1) (lock tmo s) _ (lock_lem tmo s) (λ p l.
        Ensures-assert (Counts 1) (is_ok p.0) _ (λ e. (omega (arith, rw e at l), omega arith))))
  init-Counts err false tmo s free =
      Ensures-assert (Counts 1) (is_ok err) _ (λ _. (sym free, omega arith))

  -- The loop of the destructor ends within one test more than the depth, with a depth of 0, and has
  -- released the mutex, if an unlock of a mutex that is held succeeds.
  pub destroy-released :
      ((s : State) → 0 < holds s → (s' : State) × (unlock s ≡ done (ok, s')))
      → (fuel n : ℕ) (m : OsMutex M) → Counts n m
      → m.lock_depth < fuel
      → (m' : OsMutex M) × (destroy M fuel m ≡ done (some m'))
        × (holds m'.mutex ≡ 0)
        × (m'.lock_depth ≡ 0)
  unfolding destroy
  destroy-released works zero n m (c, most) le = absurd (omega arith)
  destroy-released works (suc fuel) n m (c, most) le = elim (Bool-cases (ltb 0 m.lock_depth)) [
    | inl e ↦
        let (s', u) = works m.mutex (omega (arith, positive m.lock_depth e)) in
        let l : holds m.mutex ≡ suc (holds s') =
          subst (Ensures (Unlocks holds (holds m.mutex))) u (unlock_lem m.mutex) in
        let (m', d, h, z) =
          destroy-released works fuel n (record { mutex = s'; lock_depth = m.lock_depth - 1 })
            (omega arith, omega arith) (omega arith) in
        (m', rw (e, u) d, h, z)
    | inr e ↦ (m, rw e refl, omega (arith, zero_depth m.lock_depth e), zero_depth m.lock_depth e)
  ]
