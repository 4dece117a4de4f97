-- ===== src/Base/Effects.antt =====
-- The outcome of a call: it returns, it runs into a fault, or it waits for another thread.
use mathlib.Core.Path.{◌≡◌, refl}
use mathlib.Core.Bool.{Bool, true, false}

pub data Outcome {ℓ} (A : Type ℓ) : Type ℓ where
  done : A → Outcome A
  assert_failed : Outcome A  -- an `assert` whose condition is false: the program aborts
  undefined : Outcome A  -- a null or wild pointer, or a conversion out of range
  blocked : Outcome A  -- the calling thread sleeps until another one acts

-- `abbrev`, so that `done a >>= f` computes wherever it stands.
infixl 5 ◌>>=◌ ◌>>◌
abbrev pub ◌>>=◌ {ℓ κ} : {A : Type ℓ} {B : Type κ} → Outcome A → (A → Outcome B) → Outcome B
done a >>= f = f a
assert_failed >>= f = assert_failed
undefined >>= f = undefined
blocked >>= f = blocked

abbrev pub ◌>>◌ {ℓ} : {B : Type ℓ} → Outcome (Unit {0}) → Outcome B → Outcome B
m >> k = m >>= λ _. k

-- `assert(b)`
abbrev pub assert : Bool → Outcome (Unit {0})
assert true = done tt
assert false = assert_failed

-- Code that is defined only where `b` holds.
abbrev pub require : Bool → Outcome (Unit {0})
require true = done tt
require false = undefined

-- What holds of the value that a call returns.
abbrev pub Ensures {ℓ κ} : {A : Type ℓ} → (A → Type κ) → Outcome A → Type κ
Ensures P (done a) = P a
Ensures P assert_failed = Unit
Ensures P undefined = Unit
Ensures P blocked = Unit

pub done_eq {ℓ} : {A : Type ℓ} (a b : A) → done a ≡ done b → a ≡ b
done_eq a b h = cc

-- A bind ensures what its continuation always ensures.
pub Ensures-bind {ℓ κ μ} :
    {A : Type ℓ} {B : Type κ} (P : B → Type μ) (m : Outcome A) (f : A → Outcome B)
    → ((a : A) → Ensures P (f a))
    → Ensures P (m >>= f)
Ensures-bind P (done a) f h = h a
Ensures-bind P assert_failed f h = tt
Ensures-bind P undefined f h = tt
Ensures-bind P blocked f h = tt

-- What a bind ensures, given what its first call does.
pub Ensures-then {ℓ κ μ ν} :
    {A : Type ℓ} {B : Type κ} (P : A → Type μ) (Q : B → Type ν) (m : Outcome A) (f : A → Outcome B)
    → Ensures P m
    → ((a : A) → P a → Ensures Q (f a))
    → Ensures Q (m >>= f)
Ensures-then P Q (done a) f p h = h a p
Ensures-then P Q assert_failed f p h = tt
Ensures-then P Q undefined f p h = tt
Ensures-then P Q blocked f p h = tt

-- Behind an assertion, what it tests holds.
pub Ensures-assert {κ ν} :
    {B : Type κ} (Q : B → Type ν) (b : Bool) (m : Outcome B)
    → (b ≡ true → Ensures Q m)
    → Ensures Q (assert b >> m)
Ensures-assert Q true m h = h refl
Ensures-assert Q false m h = tt
