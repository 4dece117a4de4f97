-- ===== src/Base/Bits.antt =====
-- The bitwise `&` of two numbers: with a low mask, with itself, and with its predecessor, which is
-- the test for a power of two.
use Prim.Native.Nat.{
  ℕ, zero, suc, ◌+◌, ◌-◌, ◌*◌, ◌/◌, ◌%◌, ◌^◌, ◌≤◌, ◌<◌, min, bit_and, digits, bit_and-bitwise,
}
use mathlib.Core.Path.{◌≡◌, refl, sym, ap, ap₂, ◌∙◌}
use mathlib.Core.Logic.{◌≢◌}
use native.Mathlib.Decide.{ℕ_discrete}
use native.Mathlib.Nat.{
  pow-suc, one-le-pow, div-add-mod, mul-add-mod_self_left, mod-lt, mod-eq_of_lt, mul_assoc,
  add-zero, mod-mod_of_dvd, dvd_of_mod-eq-zero, mul-mod_right,
}
use native.Mathlib.Omega.{arith}

-- The digits left to go are a fuel: any fuel from the first number on gives the same result.
and_fuel_eq : (n m a b : ℕ) → a ≤ n → a ≤ m → digits (λ _. 0) min n a b ≡ digits (λ _. 0) min m a b
and_fuel_eq n m zero b p q = zero_case n ∙ (λ i. zero_case' m i)
  where
    zero_case : (k : ℕ) → digits (λ _. 0) min k 0 b ≡ 0
    zero_case zero = refl
    zero_case (suc k) = refl

    zero_case' : (k : ℕ) → 0 ≡ digits (λ _. 0) min k 0 b
    zero_case' zero = refl
    zero_case' (suc k) = refl
and_fuel_eq zero m (suc a) b p q = absurd (omega arith)
and_fuel_eq (suc n) zero (suc a) b p q = absurd (omega arith)
and_fuel_eq (suc n) (suc m) (suc a) b p q =
    ap (λ t. t * 2 + min (suc a % 2) (b % 2))
      (and_fuel_eq n m (suc a / 2) (b / 2) (omega arith) (omega arith))

zero-bit_and : (b : ℕ) → bit_and 0 b ≡ 0
zero-bit_and b = bit_and-bitwise 0 b

-- The lowest digit of `a & b`, and the rest.
pub bit_and-halves : (a b : ℕ) → bit_and a b ≡ bit_and (a / 2) (b / 2) * 2 + min (a % 2) (b % 2)
bit_and-halves zero b = omega (arith, zero-bit_and b, zero-bit_and (b / 2))
bit_and-halves (suc a) b = omega (
  arith,
  bit_and-bitwise (suc a) b,
  bit_and-bitwise (suc a / 2) (b / 2),
  and_fuel_eq a (suc a / 2) (suc a / 2) (b / 2) (omega arith) (omega arith),
)

bit_and-zero_upto : (n a : ℕ) → a ≤ n → bit_and a 0 ≡ 0
bit_and-zero_upto zero a h =
    omega (arith, bit_and-halves a 0, zero-bit_and (a / 2), bit_and-zero_at a h)
  where
    bit_and-zero_at : (k : ℕ) → k ≤ 0 → bit_and k 0 ≡ 0
    bit_and-zero_at zero p = zero-bit_and 0
    bit_and-zero_at (suc k) p = absurd (omega arith)
bit_and-zero_upto (suc n) zero h = zero-bit_and 0
bit_and-zero_upto (suc n) (suc a) h =
    omega (arith, bit_and-halves (suc a) 0, bit_and-zero_upto n (suc a / 2) (omega arith))

bit_and-self_upto : (n a : ℕ) → a ≤ n → bit_and a a ≡ a
bit_and-self_upto n zero h = zero-bit_and 0
bit_and-self_upto zero (suc a) h = absurd (omega arith)
bit_and-self_upto (suc n) (suc a) h =
    omega (arith, bit_and-halves (suc a) (suc a), bit_and-self_upto n (suc a / 2) (omega arith))

-- The lowest digit of a remainder by an even number, and the rest.
mod-double : (a p : ℕ) → 0 < p → a % (p * 2) ≡ (a / 2 % p) * 2 + a % 2
mod-double a p h =
    ap (λ t. t % (p * 2)) regroup
    ∙ mul-add-mod_self_left (p * 2) (a / 2 / p) _
    ∙ mod-eq_of_lt {n = (a / 2 % p) * 2 + a % 2} (omega (arith, mod-lt (a / 2) h))
  where
    regroup : a ≡ (p * 2) * (a / 2 / p) + ((a / 2 % p) * 2 + a % 2)
    regroup = omega (arith, div-add-mod (a / 2) p)

-- `a & (2 ^ k - 1)` keeps the `k` lowest digits.
pub bit_and-low_mask : (k a : ℕ) → bit_and a (2 ^ k - 1) ≡ a % 2 ^ k
bit_and-low_mask zero a = omega (arith, bit_and-zero_upto a a (omega arith))
bit_and-low_mask (suc k) a = rw (pow-suc 2 k) (
    bit_and-halves a (2 ^ k * 2 - 1)
    ∙ ap₂ (λ m d. bit_and (a / 2) m * 2 + d) half_mask low_digit
    ∙ ap (λ t. t * 2 + a % 2) (bit_and-low_mask k (a / 2))
    ∙ sym (mod-double a (2 ^ k) (one-le-pow k 2 (omega arith))))
  where
    half_mask : (2 ^ k * 2 - 1) / 2 ≡ 2 ^ k - 1
    half_mask = omega (arith, one-le-pow k 2 (omega arith))

    low_digit : min (a % 2) ((2 ^ k * 2 - 1) % 2) ≡ a % 2
    low_digit = omega (arith, one-le-pow k 2 (omega arith))

-- A number with no digit in common with its predecessor is a power of two.
pow_two_upto : (n c : ℕ) → c ≤ n → 0 < c → bit_and (c - 1) c ≡ 0 → (k : ℕ) × (c ≡ 2 ^ k)
pow_two_upto zero c le p e = absurd (omega arith)
pow_two_upto (suc n) c le p e = elim (ℕ_discrete (c % 2) 0) [
  | yes even ↦
      let (k, h) =
        pow_two_upto n (c / 2) (omega arith) (omega arith)
          (omega (arith, bit_and-halves (c - 1) c, ap₂ bit_and (lower even) (half even))) in
      (suc k, omega (arith, pow-suc 2 k, h))
  | no odd ↦ (
    0,
    omega (
      arith,
      bit_and-halves (c - 1) c,
      ap (λ t. bit_and t (c / 2)) (same odd),
      bit_and-self_upto (c / 2) (c / 2) (omega arith),
    ),
  )
]
  where
    lower : c % 2 ≡ 0 → (c - 1) / 2 ≡ c / 2 - 1
    lower even = omega arith

    half : c % 2 ≡ 0 → c / 2 ≡ c / 2
    half even = refl

    same : c % 2 ≢ 0 → (c - 1) / 2 ≡ c / 2
    same odd = omega arith

pub pow_two_of_bit_and : (c : ℕ) → 0 < c → bit_and (c - 1) c ≡ 0 → (k : ℕ) × (c ≡ 2 ^ k)
pow_two_of_bit_and c = pow_two_upto c c (omega arith)

pub bit_and_of_pow_two : (k : ℕ) → bit_and (2 ^ k - 1) (2 ^ k) ≡ 0
bit_and_of_pow_two zero = zero-bit_and 1
bit_and_of_pow_two (suc k) = rw (pow-suc 2 k) (
    omega (
      arith,
      bit_and-halves (2 ^ k * 2 - 1) (2 ^ k * 2),
      ap₂ bit_and half_mask half,
      bit_and_of_pow_two k,
    ))
  where
    half_mask : (2 ^ k * 2 - 1) / 2 ≡ 2 ^ k - 1
    half_mask = omega (arith, one-le-pow k 2 (omega arith))

    half : 2 ^ k * 2 / 2 ≡ 2 ^ k
    half = omega arith

pub pow-add : (k d : ℕ) → 2 ^ k * 2 ^ d ≡ 2 ^ (k + d)
pow-add k zero = rw (add-zero k) (omega arith)
pow-add k (suc d) =
    ap (λ t. 2 ^ k * t) (pow-suc 2 d)
    ∙ sym (mul_assoc (2 ^ k) (2 ^ d) 2)
    ∙ ap (λ t. t * 2) (pow-add k d)
    ∙ sym (pow-suc 2 (k + d))
    ∙ ap (λ t. 2 ^ t) (omega arith)

-- A wrap at 16 bits does not change a remainder by a smaller power of two.
pub mod-mod_pow_two : (k a : ℕ) → k ≤ 16 → a % 2 ^ 16 % 2 ^ k ≡ a % 2 ^ k
mod-mod_pow_two k a h = mod-mod_of_dvd (2 ^ k) a (
    dvd_of_mod-eq-zero (2 ^ k) (
      ap (λ t. t % 2 ^ k) (sym (pow-add k (16 - k) ∙ whole))
      ∙ mul-mod_right (2 ^ k) (2 ^ (16 - k))))
  where
    whole : 2 ^ (k + (16 - k)) ≡ 2 ^ 16
    whole = ap (λ t. 2 ^ t) {x = k + (16 - k)} {y = 16} (omega arith)
