-- ===== src/Osal/Panic.antt =====
-- include/poski/osal/os_panic.h: what a panic writes, and how it ends.
use poski.Base.{ℕ, List, [], ◌∷◌}

-- A panic does not return: the program is aborted, or it loops for ever.
pub data Halt : Type 0 where
  aborted : Halt
  looping : Halt

-- "POSKI PANIC: "
abbrev pub prefix : List ℕ
prefix = 80 ∷ 79 ∷ 83 ∷ 75 ∷ 73 ∷ 32 ∷ 80 ∷ 65 ∷ 78 ∷ 73 ∷ 67 ∷ 58 ∷ 32 ∷ []

abbrev pub newline : List ℕ
newline = 10 ∷ []
