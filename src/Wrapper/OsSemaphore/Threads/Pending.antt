-- ===== src/Wrapper/OsSemaphore/Threads/Pending.antt =====
-- The tokens of an OsSemaphore, its depth, and the calls of its threads that are not counted yet.
use poski.Base.{
  ℕ, zero, suc, ◌+◌, ◌<◌, ◌≤◌, ◌≡◌, refl, ap, List, [], ◌∷◌, ◌++◌, replicate, arith, ne→==, ℤ, pos,
  negsuc,
}
use poski.Wrapper.OsSemaphore.{inc32, dec32}
use poski.Wrapper.OsSemaphore.Scope.{Depth}

-- Where a thread stands.
pub data Pc : Type 0 where
  idle : Pc  -- in none of the two methods, or before its call of the native semaphore
  took : Pc  -- in `Take`, before `take_depth_++`
  gave : Pc  -- in `Give`, before `take_depth_--`

abbrev pub is_took : Pc → ℕ
is_took idle = 0
is_took took = 1
is_took gave = 0

abbrev pub is_gave : Pc → ℕ
is_gave idle = 0
is_gave took = 0
is_gave gave = 1

-- How many of the threads stand there.
abbrev pub pending : (Pc → ℕ) → List Pc → ℕ
pending at [] = 0
pending at (p ∷ l) = at p + pending at l

pending-append :
    (at : Pc → ℕ) (xs ys : List Pc) → pending at (xs ++ ys) ≡ pending at xs + pending at ys
pending-append at [] ys = omega arith
pending-append at (p ∷ xs) ys = omega (arith, pending-append at xs ys)

-- A step of one thread.
pub pending-move :
    (at : Pc → ℕ) (xs ys l : List Pc) (p p' : Pc)
    → l ≡ xs ++ p ∷ ys
    → pending at (xs ++ p' ∷ ys) + at p ≡ pending at l + at p'
pending-move at xs ys l p p' e =
    omega (arith, ap (pending at) e, pending-append at xs (p ∷ ys), pending-append at xs (p' ∷ ys))

pub pending-idle : (at : Pc → ℕ) (k : ℕ) → at idle ≡ 0 → pending at (replicate k idle) ≡ 0
pending-idle at zero z = refl
pending-idle at (suc k) z = omega (arith, z, pending-idle at k z)

-- The tokens and the depth add up to `start`, but for `a` takes and `g` gives that are not counted
-- yet; the depth is at most `n` away from 0.
abbrev pub Balance : ℕ → ℕ → ℕ → ℕ → ℕ → ℤ → Type 0
Balance start n tokens a g (pos d) = (tokens + d + a ≡ start + g) × (d ≤ n)
Balance start n tokens a g (negsuc d) = (tokens + a ≡ start + g + suc d) × (suc d ≤ n)

pub Balance-moves :
    (start n tokens a g : ℕ) (tokens' a' g' : ℕ) (d : ℤ)
    → tokens' + a' + g ≡ tokens + a + g'
    → Balance start n tokens a g d
    → Balance start (suc n) tokens' a' g' d
Balance-moves start n tokens a g tokens' a' g' (pos d) h (e, le) = (omega arith, omega arith)
Balance-moves start n tokens a g tokens' a' g' (negsuc d) h (e, le) = (omega arith, omega arith)

pub Balance-inc :
    (start n tokens a a' g : ℕ) (d : ℤ)
    → a ≡ suc a'
    → n < 2147483647
    → Balance start n tokens a g d
    → Balance start (suc n) tokens a' g (inc32 d)
Balance-inc start n tokens a a' g (pos d) h lt (e, le) =
    rw (ne→== d 2147483647 (λ q. absurd (omega arith))) (omega arith, omega arith)
Balance-inc start n tokens a a' g (negsuc zero) h lt (e, le) = (omega arith, omega arith)
Balance-inc start n tokens a a' g (negsuc (suc d)) h lt (e, le) = (omega arith, omega arith)

pub Balance-dec :
    (start n tokens a g g' : ℕ) (d : ℤ)
    → g ≡ suc g'
    → n < 2147483647
    → Balance start n tokens a g d
    → Balance start (suc n) tokens a g' (dec32 d)
Balance-dec start n tokens a g g' (pos zero) h lt (e, le) = (omega arith, omega arith)
Balance-dec start n tokens a g g' (pos (suc d)) h lt (e, le) = (omega arith, omega arith)
Balance-dec start n tokens a g g' (negsuc d) h lt (e, le) =
    rw (ne→== d 2147483647 (λ q. absurd (omega arith))) (omega arith, omega arith)

pub Depth-Balance :
    (start n tokens : ℕ) (d : ℤ) → Depth start n tokens d → Balance start n tokens 0 0 d
Depth-Balance start n tokens (pos d) (e, le) = (omega arith, le)
Depth-Balance start n tokens (negsuc d) (e, le) = (omega arith, le)
