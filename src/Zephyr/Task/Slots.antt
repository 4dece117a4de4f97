-- ===== src/Zephyr/Task/Slots.antt =====
-- The two loops over the array of stacks.
use poski.Base.{
  ℕ, zero, suc, ◌+◌, ◌<◌, ◌≤◌, ◌≡◌, refl, ap, Bool, true, false, none, some, some_eq, List, [], ◌∷◌,
  arith, length, get_or, set, eq→==, ne→==, if◌then◌else◌,
}
use poski.Zephyr.Task.{find_unused, free_stack}

-- How many stacks are used.
abbrev pub count_used : List Bool → ℕ
count_used [] = 0
count_used (used ∷ rest) = if used then suc (count_used rest) else count_used rest

pub count_used-le : (us : List Bool) → count_used us ≤ length us
count_used-le [] = omega arith
count_used-le (true ∷ us) = omega (arith, count_used-le us)
count_used-le (false ∷ us) = omega (arith, count_used-le us)

-- It finds an unused stack, if there is one.
pub find_unused-some :
    (i : ℕ) (us : List Bool) (j : ℕ)
    → find_unused i us ≡ some j
    → (k : ℕ) × (j ≡ i + k) × (k < length us) × (get_or us k false ≡ false)
unfolding find_unused
find_unused-some i [] j e = absurd (cc)
find_unused-some i (true ∷ us) j e =
    let (k, p, q, r) = find_unused-some (suc i) us j e in (suc k, omega arith, omega arith, r)
find_unused-some i (false ∷ us) j e = (0, omega (arith, some_eq i j e), omega arith, refl)

pub find_unused-none :
    (i : ℕ) (us : List Bool) → find_unused i us ≡ none → count_used us ≡ length us
unfolding find_unused
find_unused-none i [] e = refl
find_unused-none i (true ∷ us) e = ap suc (find_unused-none (suc i) us e)
find_unused-none i (false ∷ us) e = absurd (cc)

pub count_used-set-true :
    (us : List Bool) (k : ℕ)
    → k < length us
    → get_or us k false ≡ false
    → count_used (set us k true) ≡ suc (count_used us)
count_used-set-true [] k lt e = absurd (omega arith)
count_used-set-true (true ∷ us) zero lt e = absurd (cc)
count_used-set-true (false ∷ us) zero lt e = refl
count_used-set-true (true ∷ us) (suc k) lt e = ap suc (count_used-set-true us k (omega arith) e)
count_used-set-true (false ∷ us) (suc k) lt e = count_used-set-true us k (omega arith) e

pub count_used-set-false :
    (us : List Bool) (k : ℕ)
    → get_or us k false ≡ true
    → suc (count_used (set us k false)) ≡ count_used us
count_used-set-false [] k e = absurd (cc)
count_used-set-false (true ∷ us) zero e = refl
count_used-set-false (false ∷ us) zero e = absurd (cc)
count_used-set-false (true ∷ us) (suc k) e = ap suc (count_used-set-false us k e)
count_used-set-false (false ∷ us) (suc k) e = count_used-set-false us k e

-- A stack that could not be used after all is as before.
pub set-set :
    (us : List Bool) (k : ℕ) → get_or us k false ≡ false → set (set us k true) k false ≡ us
set-set [] k e = refl
set-set (true ∷ us) zero e = absurd (cc)
set-set (false ∷ us) zero e = refl
set-set (u ∷ us) (suc k) e = ap (λ l. u ∷ l) (set-set us k e)

-- The loop of the removal clears the entry of the stack.
pub free_stack-set :
    (us : List Bool) (i k j : ℕ) → j ≡ i + k → free_stack (some j) i us ≡ set us k false
unfolding free_stack
free_stack-set [] i k j e = refl
free_stack-set (u ∷ us) i zero j e = rw (eq→== j i (omega arith)) refl
free_stack-set (u ∷ us) i (suc k) j e =
    rw (ne→== j i (λ q. absurd (omega arith)))
      (ap (λ l. u ∷ l) (free_stack-set us (suc i) k j (omega arith)))
