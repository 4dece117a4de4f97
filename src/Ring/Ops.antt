-- ===== src/Ring/Ops.antt =====
-- The calls that a client of OsRing can make, and what it sees of each.
use poski.Base.{ℕ, ◌≡◌, Bool, Option, List, [], ◌∷◌, length}

pub data Op : Type 0 where
  push : List ℕ → Op
  pop peek count is_empty is_full : Op

pub data Reply : Type 0 where
  nothing : Reply
  item : Option (List ℕ) → Reply
  number : ℕ → Reply
  flag : Bool → Reply

-- An item that is pushed has `n` bytes.
abbrev pub SizedOp : ℕ → Op → Type 0
SizedOp n (push x) = length x ≡ n
SizedOp n _ = Unit

abbrev pub Sized : ℕ → List Op → Type 0
Sized n [] = Unit
Sized n (op ∷ ops) = SizedOp n op × Sized n ops
