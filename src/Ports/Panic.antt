-- ===== src/Ports/Panic.antt =====
-- pos_panic of the four ports side by side.
use poski.Base.{ℕ, ◌≡◌, refl, false, none, some, Option, List}
use poski.Posix.Panic as Posix
use poski.Freertos.Panic as Freertos
use poski.RtThread.Panic as Rt
use poski.Zephyr.Panic as Zephyr

-- Where assertions are compiled in, a panic writes the same in all ports, and aborts the program.
pub panic_same :
    (msg : Option (List ℕ))
    → (Freertos.pos_panic false msg ≡ Posix.pos_panic msg)
      × (Rt.pos_panic false msg ≡ Posix.pos_panic msg)
      × (Zephyr.pos_panic false msg ≡ Posix.pos_panic msg)
unfolding Posix.pos_panic Freertos.pos_panic Rt.pos_panic Zephyr.pos_panic
panic_same none = (refl, refl, refl)
panic_same (some msg) = (refl, refl, refl)
