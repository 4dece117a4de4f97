-- ===== src/Ports/Timers.antt =====
-- The timers of targets/posix/os_timer.c, targets/freertos/os_timer.c and targets/zephyr/os_timer.c
-- side by side.
use poski.Base.{ℕ, ◌≡◌, refl, List, done}
use poski.Osal.Timer.{Op, run, run-expected, expected}
use poski.Posix.Timer as PosixTimer
use poski.Posix.Timer.Contract as Posix
use poski.Freertos.Timer as FreertosTimer
use poski.Freertos.Timer.Contract as Freertos
use poski.Zephyr.Timer as ZephyrTimer
use poski.Zephyr.Timer.Contract as Zephyr

module _ (P : PosixTimer.TimerApi) (id : ℕ) (PK : Posix.Accepts P id) (F : FreertosTimer.TimerApi)
    (FK : Freertos.Accepts F) (Z : ZephyrTimer.TimerApi) where
  -- Let the POSIX system accept every setting of the timer, have a clock that can be read in every
  -- state, and so never counts as far as 2^32 milliseconds, and leave the timer disarmed once it has
  -- expired. Let the FreeRTOS kernel accept every command, at once, and the calls come from its tasks and
  -- never from an interrupt routine. Then on initialised timers of the three ports with the same callback
  -- and argument, all or none of them running, any starts for a positive number of ticks, stops, changes
  -- of the argument and waits until a running timer has expired make the same calls of the callback, one
  -- for each wait for a running timer, with the argument set last; and then all or none of them are
  -- running.
  pub posix-freertos-zephyr :
      (ops : List Op) (p : Posix.Object P id PK) (f : Freertos.Object F FK) (z : Zephyr.Object Z)
      → Posix.IsReady P id PK p
      → Freertos.IsReady F FK f
      → Zephyr.IsReady Z z
      → Freertos.callback F FK f ≡ Posix.callback P id PK p
      → Zephyr.callback Z z ≡ Posix.callback P id PK p
      → Freertos.is_running F FK f.0.handle f.1 ≡ p.0.tm_active
      → Zephyr.active Z z ≡ p.0.tm_active
      → let calls = expected (Posix.callback P id PK p) p.0.tm_active ops in
        (p' : Posix.Object P id PK) × (f' : Freertos.Object F FK) × (z' : Zephyr.Object Z) × (run
            (Posix.posix_one_shot P id PK)
            ops
            p
          ≡ done (calls, p'))
        × (run (Freertos.freertos_one_shot F FK) ops f ≡ done (calls, f'))
        × (run (Zephyr.zephyr_one_shot Z) ops z ≡ done (calls, z'))
        × (Freertos.is_running F FK f'.0.handle f'.1 ≡ p'.0.tm_active)
        × (Zephyr.active Z z' ≡ p'.0.tm_active)
  posix-freertos-zephyr ops p f z pr fr zr fc zc fa za =
      let (p', pe, _, pa) = run-expected (Posix.posix_one_shot P id PK) ops p pr in
      let (f', fe, _, fb) =
        rw (fc, fa) at (run-expected (Freertos.freertos_one_shot F FK) ops f fr) in
      let (z', ze, _, zb) = rw (zc, za) at (run-expected (Zephyr.zephyr_one_shot Z) ops z zr) in
      (p', f', z', pe, fe, ze, rw (fb, pa) refl, rw (zb, pa) refl)
