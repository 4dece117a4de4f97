-- ===== src/Base/Lists.antt =====
-- Lists measured and indexed by native numbers, under the library's names; C arrays of bytes with
-- reads and writes of a run of bytes, as `memcpy` makes them.
use Prim.Native.Nat.{ℕ, zero, suc, ◌+◌, ◌≤◌, ◌<◌}
use mathlib.Core.Path.{◌≡◌, refl, ap, ◌∙◌}
use mathlib.Core.Logic.{◌≢◌, ◌⊎◌, inl, inr}
use mathlib.Core.List.{List, [], ◌∷◌, ◌++◌}
use native.Mathlib.Omega.{arith}

module _ {ℓ} {A : Type ℓ} where
  abbrev pub length : List A → ℕ
  length [] = 0
  length (x ∷ xs) = suc (length xs)

  abbrev pub get_or : List A → ℕ → A → A
  get_or [] i d = d
  get_or (x ∷ xs) zero d = x
  get_or (x ∷ xs) (suc i) d = get_or xs i d

  -- A write out of bounds changes nothing.
  abbrev pub set : List A → ℕ → A → List A
  set [] i v = []
  set (x ∷ xs) zero v = v ∷ xs
  set (x ∷ xs) (suc i) v = x ∷ set xs i v

  abbrev pub take : ℕ → List A → List A
  take zero xs = []
  take (suc n) [] = []
  take (suc n) (x ∷ xs) = x ∷ take n xs

  abbrev pub replicate : ℕ → A → List A
  replicate zero a = []
  replicate (suc n) a = a ∷ replicate n a

  pub length-append : (xs ys : List A) → length (xs ++ ys) ≡ length xs + length ys
  length-append [] ys = omega arith
  length-append (x ∷ xs) ys = omega (arith, length-append xs ys)

  pub length-replicate : (n : ℕ) (a : A) → length (replicate n a) ≡ n
  length-replicate zero a = refl
  length-replicate (suc n) a = ap suc (length-replicate n a)

  pub length-set : (xs : List A) (i : ℕ) (v : A) → length (set xs i v) ≡ length xs
  length-set [] i v = refl
  length-set (x ∷ xs) zero v = refl
  length-set (x ∷ xs) (suc i) v = ap suc (length-set xs i v)

  pub get_or-set_self :
      (xs : List A) (i : ℕ) (v d : A) → i < length xs → get_or (set xs i v) i d ≡ v
  get_or-set_self [] i v d h = absurd (omega arith)
  get_or-set_self (x ∷ xs) zero v d h = refl
  get_or-set_self (x ∷ xs) (suc i) v d h = get_or-set_self xs i v d (omega arith)

  pub get_or-set_ne :
      (xs : List A) (i j : ℕ) (v d : A) → i ≢ j → get_or (set xs i v) j d ≡ get_or xs j d
  get_or-set_ne [] i j v d h = refl
  get_or-set_ne (x ∷ xs) zero zero v d h = absurd (h refl)
  get_or-set_ne (x ∷ xs) zero (suc j) v d h = refl
  get_or-set_ne (x ∷ xs) (suc i) zero v d h = refl
  get_or-set_ne (x ∷ xs) (suc i) (suc j) v d h = get_or-set_ne xs i j v d (λ e. h (ap suc e))

-- The `n` bytes of `buf` from offset `off` on.
abbrev pub load : List ℕ → ℕ → ℕ → List ℕ
load buf off zero = []
load buf off (suc n) = get_or buf off 0 ∷ load buf (suc off) n

-- Writes the bytes `xs` at offset `off`, one after the other.
abbrev pub store : List ℕ → ℕ → List ℕ → List ℕ
store buf off [] = buf
store buf off (x ∷ xs) = store (set buf off x) (suc off) xs

pub length-load : (buf : List ℕ) (off n : ℕ) → length (load buf off n) ≡ n
length-load buf off zero = refl
length-load buf off (suc n) = ap suc (length-load buf (suc off) n)

pub length-store : (buf : List ℕ) (off : ℕ) (xs : List ℕ) → length (store buf off xs) ≡ length buf
length-store buf off [] = refl
length-store buf off (x ∷ xs) = length-store (set buf off x) (suc off) xs ∙ length-set buf off x

get_or-store_before :
    (buf : List ℕ) (off : ℕ) (xs : List ℕ) (i : ℕ)
    → i < off
    → get_or (store buf off xs) i 0 ≡ get_or buf i 0
get_or-store_before buf off [] i h = refl
get_or-store_before buf off (x ∷ xs) i h =
    get_or-store_before (set buf off x) (suc off) xs i (omega arith)
    ∙ get_or-set_ne buf off i x 0 (omega arith)

get_or-store_after :
    (buf : List ℕ) (off : ℕ) (xs : List ℕ) (i : ℕ)
    → off + length xs ≤ i
    → get_or (store buf off xs) i 0 ≡ get_or buf i 0
get_or-store_after buf off [] i h = refl
get_or-store_after buf off (x ∷ xs) i h =
    get_or-store_after (set buf off x) (suc off) xs i (omega arith)
    ∙ get_or-set_ne buf off i x 0 (omega arith)

-- Two buffers that agree on a run of offsets hold the same bytes there.
load-congr :
    (b c : List ℕ) (off n : ℕ)
    → ((i : ℕ) → off ≤ i → i < off + n → get_or b i 0 ≡ get_or c i 0)
    → load b off n ≡ load c off n
load-congr b c off zero h = refl
load-congr b c off (suc n) h = λ i.
    h off (omega arith) (omega arith) i
    ∷ load-congr b c (suc off) n (λ j p q. h j (omega arith) (omega arith)) i

-- What was written is read back.
pub load-store_self :
    (buf : List ℕ) (off : ℕ) (xs : List ℕ)
    → off + length xs ≤ length buf
    → load (store buf off xs) off (length xs) ≡ xs
load-store_self buf off [] h = refl
load-store_self buf off (x ∷ xs) h = λ i.
    (get_or-store_before (set buf off x) (suc off) xs off (omega arith)
        ∙ get_or-set_self buf off x 0 (omega arith))
      i
    ∷ load-store_self (set buf off x) (suc off) xs (omega (arith, length-set buf off x)) i

-- A run of bytes that the write does not touch reads as before.
pub load-store_other :
    (buf : List ℕ) (off : ℕ) (xs : List ℕ) (o n : ℕ)
    → (o + n ≤ off) ⊎ (off + length xs ≤ o)
    → load (store buf off xs) o n ≡ load buf o n
load-store_other buf off xs o n (inl h) =
    load-congr _ _ o n (λ i p q. get_or-store_before buf off xs i (omega arith))
load-store_other buf off xs o n (inr h) =
    load-congr _ _ o n (λ i p q. get_or-store_after buf off xs i (omega arith))
