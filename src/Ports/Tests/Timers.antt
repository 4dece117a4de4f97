-- ===== src/Ports/Tests/Timers.antt =====
-- A timer in each of three ports, started twice, with its argument changed in between.
use poski.Base.{ℕ, ◌≡◌, refl, false, some, List, [], ◌∷◌, arith, done}
use poski.Osal.Timer.{Op, starts, stops, sets, passes, run}
use poski.Posix.Time.{pos_time_get}
use poski.Posix.Timer.Contract as Posix
use poski.Posix.Tests.Timers as PosixSystem
use poski.Freertos.Timer.Contract as Freertos
use poski.Freertos.Tests.Timers as FreertosKernel
use poski.Zephyr.Timer as ZephyrTimer
use poski.Zephyr.Timer.{TimerApi, amount, chip_os_timer_is_active}
use poski.Zephyr.Timer.Contract as Zephyr
use poski.Ports.Timers.{posix-freertos-zephyr}

-- A timer is the ticks that it has left.
abbrev ticking : TimerApi
ticking = record {
  State = ℕ;
  remaining = λ n. n;
  k_timer_init = λ n. 0;
  k_timer_start = λ d n. amount d;
  k_timer_stop = λ n. 0;
  expires = λ n. 0;
  init_lem = λ n. refl;
  start_lem = λ d n h. h;
  stop_lem = λ n. refl;
  expires_lem = λ n. refl;
}

clock_reads : pos_time_get (some PosixSystem.clock) ≡ done 3_600_500
unfolding pos_time_get
clock_reads = refl

abbrev posix : Posix.Accepts PosixSystem.timers 1
posix = record {
  settings = λ its s. refl;
  clock = λ s. (3_600_500, clock_reads);
  expires = λ s. PosixSystem.off;
  expires_lem = λ s. refl;
}

abbrev freertos : Freertos.Accepts FreertosKernel.kernel
freertos = record {
  task = λ s. refl;
  stops = λ h s. refl;
  changes = λ h n s. refl;
  resets = λ h s. refl;
}

abbrev at_rest : FreertosKernel.Kernel
at_rest = record { running = false; period = 1; expiry = 0 }

abbrev zephyr_timer : ZephyrTimer.Timer
zephyr_timer = record { cb = some 7; arg = 9 }

abbrev script : List Op
script =
    passes
    ∷ starts 5 (omega arith)
    ∷ sets 3
    ∷ passes
    ∷ passes
    ∷ starts 2 (omega arith)
    ∷ stops
    ∷ passes
    ∷ starts 4 (omega arith)
    ∷ passes
    ∷ []

posix-freertos-zephyr_example :
    (p' : Posix.Object PosixSystem.timers 1 posix) × (f' : Freertos.Object FreertosKernel.kernel
      freertos)
    × (z' : Zephyr.Object ticking) × (run
          (Posix.posix_one_shot PosixSystem.timers 1 posix)
          script
          (PosixSystem.timer, PosixSystem.off)
        ≡ done ((7, 3) ∷ (7, 3) ∷ [], p'))
    × (run
          (Freertos.freertos_one_shot FreertosKernel.kernel freertos)
          script
          (FreertosKernel.timer, at_rest)
        ≡ done ((7, 3) ∷ (7, 3) ∷ [], f'))
    × (run (Zephyr.zephyr_one_shot ticking) script (zephyr_timer, 0)
        ≡ done ((7, 3) ∷ (7, 3) ∷ [], z'))
    × (Freertos.is_running FreertosKernel.kernel freertos f'.0.handle f'.1 ≡ p'.0.tm_active)
    × (Zephyr.active ticking z' ≡ p'.0.tm_active)
unfolding chip_os_timer_is_active
posix-freertos-zephyr_example =
    posix-freertos-zephyr PosixSystem.timers 1 posix FreertosKernel.kernel freertos ticking script
      (PosixSystem.timer, PosixSystem.off) (FreertosKernel.timer, at_rest) (zephyr_timer, 0)
      (refl, refl) (1, refl) (7, refl) refl refl refl refl
