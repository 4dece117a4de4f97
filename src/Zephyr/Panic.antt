-- ===== src/Zephyr/Panic.antt =====
-- targets/zephyr/os_panic.c.
use poski.Base.{ℕ, Bool, Option, none, some, List, [], ◌++◌, if◌then◌else◌}
use poski.Osal.Panic.{Halt, aborted, looping, prefix, newline}

-- What `printf` writes, and a failed assertion, or where `ndebug` leaves assertions out a loop.
unfoldable pub pos_panic : Bool → Option (List ℕ) → List ℕ × Halt
pos_panic ndebug none = ([], if ndebug then looping else aborted)
pos_panic ndebug (some msg) = (prefix ++ msg ++ newline, if ndebug then looping else aborted)
