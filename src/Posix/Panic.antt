-- ===== src/Posix/Panic.antt =====
-- targets/posix/os_panic.c.
use poski.Base.{ℕ, Option, none, some, List, [], ◌++◌}
use poski.Osal.Panic.{Halt, aborted, prefix, newline}

-- What is written to stderr, and `abort`.
unfoldable pub pos_panic : Option (List ℕ) → List ℕ × Halt
pos_panic none = ([], aborted)
pos_panic (some msg) = (prefix ++ msg ++ newline, aborted)
