-- ===== src/Wrapper/OsMutex/Scope.antt =====
-- The life of an OsMutex, from its constructor to its destructor.
use poski.Base.{
  some, ℕ, suc, ◌+◌, ◌<◌, ◌≡◌, subst, Bool, List, [], ◌∷◌, length, arith, Outcome, done,
  assert_failed, undefined, blocked, ◌>>=◌, Ensures, Ensures-then,
}
use poski.Osal.ErrorCode.{PosError, ok}
use poski.Osal.Mutex.{Mutex}
use poski.Wrapper.OsMutex.{OsMutex, init, destroy, lock_it, unlock_it}
use poski.Wrapper.OsMutex.Laws.{
  Counts, CountsAfter, lock-Counts, unlock-Counts, init-Counts, destroy-released,
}

-- The calls of a user of the object, whatever they return.
pub data Use : Type 0 where
  locks : (tmo : ℕ) → Use
  unlocks : Use

module _ (M : Mutex) where
  open M use {State, holds, unlock}

  pub use_all : List Use → OsMutex M → Outcome (OsMutex M)
  use_all [] m = done m
  use_all (locks tmo ∷ uses) m = lock_it M tmo m >>= λ p. use_all uses p.1
  use_all (unlocks ∷ uses) m = unlock_it M m >>= λ p. use_all uses p.1

  use_all-Counts :
      (n : ℕ) (uses : List Use) (m : OsMutex M)
      → Counts M n m
      → n + length uses < 4294967296
      → Ensures (Counts M (n + length uses)) (use_all uses m)
  unfolding use_all
  use_all-Counts n [] m (c, le) lt = (c, omega arith)
  use_all-Counts n (locks tmo ∷ uses) m c lt =
      Ensures-then (CountsAfter M (suc n)) (Counts M (n + suc (length uses))) (lock_it M tmo m) _
        (lock-Counts M n tmo m c (omega arith))
        (λ p d.
          subst (λ k. Ensures (Counts M k) (use_all uses p.1)) (omega arith)
            (use_all-Counts (suc n) uses p.1 d (omega arith)))
  use_all-Counts n (unlocks ∷ uses) m c lt =
      Ensures-then (CountsAfter M n) (Counts M (n + suc (length uses))) (unlock_it M m) _
        (unlock-Counts M n m c (omega arith))
        (λ p d.
          subst (λ k. Ensures (Counts M k) (use_all uses p.1)) (omega arith)
            (use_all-Counts (suc n) uses p.1 (d.0, omega (arith, d.1)) (omega arith)))

  -- The depth is how often the task holds the mutex, and the loop of the destructor ends, after as
  -- many rounds, with a depth of 0 and the mutex released.
  abbrev pub Releases : OsMutex M → Type 0
  Releases m =
      (m.lock_depth ≡ holds m.mutex)
      × ((m' : OsMutex M) × (destroy M (suc m.lock_depth) m ≡ done (some m'))
          × (holds m'.mutex ≡ 0)
          × (m'.lock_depth ≡ 0))

  -- An OsMutex over a mutex that its task did not hold counts, after its constructor and fewer than
  -- 2^32 - 1 calls of Lock and Unlock with any results, how often the task holds it; and its
  -- destructor's loop ends after as many rounds, with a depth of 0 and the mutex released, if an unlock
  -- of a mutex that is held succeeds.
  pub use_all-Releases :
      ((s : State) → 0 < holds s → (s' : State) × (unlock s ≡ done (ok, s')))
      → (err : PosError) (lock_on_construction : Bool) (tmo : ℕ) (s : State) (uses : List Use)
      → holds s ≡ 0
      → length uses < 4294967295
      → Ensures Releases (init M err lock_on_construction tmo s >>= use_all uses)
  use_all-Releases works err b tmo s uses free lt =
      Ensures-then (Counts M 1) Releases (init M err b tmo s) (use_all uses)
        (init-Counts M err b tmo s free)
        (λ m c. released (use_all uses m) (use_all-Counts 1 uses m c (omega arith)))
    where
      one : (m : OsMutex M) → Counts M (1 + length uses) m → Releases m
      one m c =
          let (m', d, h, z) =
            destroy-released M works (suc m.lock_depth) (1 + length uses) m c (omega arith) in
          (c.0, (m', d, h, z))

      released :
          (r : Outcome (OsMutex M)) → Ensures (Counts M (1 + length uses)) r → Ensures Releases r
      released (done m) c = one m c
      released assert_failed c = tt
      released undefined c = tt
      released blocked c = tt
