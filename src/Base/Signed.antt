-- ===== src/Base/Signed.antt =====
-- C's `int` values as signed numbers: `pos n` is n, `negsuc n` is -(n + 1).
use Prim.Native.Nat.{ℕ}
use mathlib.Core.Path.{◌≡◌, sym, ap, ◌∙◌}
use mathlib.Core.Logic.{◌≢◌, inl, inr}
use mathlib.Core.Bool.{Bool, true, false, true≢false}
use native.Mathlib.Omega.{arith}
use poski.Base.Tests.{◌==◌, Bool-cases}

pub data ℤ : Type 0 where
  pos : ℕ → ℤ
  negsuc : ℕ → ℤ

infix 50 ◌==ℤ◌
abbrev pub ◌==ℤ◌ : ℤ → ℤ → Bool
pos a ==ℤ pos b = a == b
pos a ==ℤ negsuc b = false
negsuc a ==ℤ pos b = false
negsuc a ==ℤ negsuc b = a == b

pub ==ℤ→eq : (a b : ℤ) → (a ==ℤ b) ≡ true → a ≡ b
==ℤ→eq (pos a) (pos b) h = ground arith
==ℤ→eq (pos a) (negsuc b) h = ground arith
==ℤ→eq (negsuc a) (pos b) h = ground arith
==ℤ→eq (negsuc a) (negsuc b) h = ground arith

==ℤ_self : (a : ℤ) → (a ==ℤ a) ≡ true
==ℤ_self (pos a) = ground arith
==ℤ_self (negsuc a) = ground arith

pub ==ℤ→ne : (a b : ℤ) → (a ==ℤ b) ≡ false → a ≢ b
==ℤ→ne a b h e = absurd (true≢false (sym (==ℤ_self a) ∙ ap (λ c. a ==ℤ c) e ∙ h))

pub ne→==ℤ : (a b : ℤ) → a ≢ b → (a ==ℤ b) ≡ false
ne→==ℤ a b h = elim (Bool-cases (a ==ℤ b)) [ inl e ↦ absurd (h (==ℤ→eq a b e)) | inr e ↦ e ]
