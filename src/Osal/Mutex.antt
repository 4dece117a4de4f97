-- ===== src/Osal/Mutex.antt =====
-- include/poski/osal/os_mutex.h: what a recursive mutex promises to the task that calls it.
use poski.Base.{ℕ, suc, ◌≡◌, Ensures, if◌then◌else◌}
use poski.Osal.ErrorCode.{PosError, is_ok, Call}

-- A lock that ends with `ok` is held once more, an unlock once less; any other result leaves the
-- count alone.
abbrev pub Locks : {S : Type 0} → (S → ℕ) → ℕ → PosError × S → Type 0
Locks holds n p = holds p.1 ≡ (if is_ok p.0 then suc n else n)

abbrev pub Unlocks : {S : Type 0} → (S → ℕ) → ℕ → PosError × S → Type 0
Unlocks holds n p = n ≡ (if is_ok p.0 then suc (holds p.1) else holds p.1)

pub record Mutex : Type 1 where
  pub State : Type 0
  pub holds : State → ℕ  -- how often the calling task holds it
  pub lock : ℕ → Call State
  pub unlock : Call State
  pub lock_lem : (timeout : ℕ) (s : State) → Ensures (Locks holds (holds s)) (lock timeout s)
  pub unlock_lem : (s : State) → Ensures (Unlocks holds (holds s)) (unlock s)
