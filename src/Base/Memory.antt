-- ===== src/Base/Memory.antt =====
-- Words of fixed width and `memcpy` on byte arrays, as C defines them.
use Prim.Native.Nat.{ℕ, ◌+◌, ◌%◌, ◌^◌, ◌≤◌}
use mathlib.Core.Path.{◌≡◌, refl, ap}
use mathlib.Core.Bool.{◌&&◌}
use mathlib.Core.List.{List, [], ◌∷◌}
use native.Mathlib.Omega.{arith}
use poski.Base.Tests.{leb}
use poski.Base.Lists.{length, take, store}
use poski.Base.Effects.{Outcome, done, require, ◌>>◌}

abbrev pub u8 : ℕ → ℕ
u8 n = n % 2 ^ 8

abbrev pub u16 : ℕ → ℕ
u16 n = n % 2 ^ 16

abbrev pub u32 : ℕ → ℕ
u32 n = n % 2 ^ 32

-- `memcpy(&dst[off], src, n)`: undefined where it leaves one of the two arrays.
unfoldable pub memcpy : List ℕ → ℕ → List ℕ → ℕ → Outcome (List ℕ)
memcpy dst off src n = do
  require (leb (off + n) (length dst) && leb n (length src))
  done (store dst off (take n src))

pub take_all {ℓ} : {A : Type ℓ} (xs : List A) → take (length xs) xs ≡ xs
take_all [] = refl
take_all (x ∷ xs) = ap (◌∷◌ x) (take_all xs)

-- A copy of a whole item that fits.
pub memcpy-whole :
    (dst : List ℕ) (off : ℕ) (src : List ℕ) (n : ℕ)
    → length src ≡ n
    → off + n ≤ length dst
    → memcpy dst off src n ≡ done (store dst off src)
unfolding memcpy
memcpy-whole dst off src n e h = ground (arith, take_all src, ap (λ k. take k src) e)
