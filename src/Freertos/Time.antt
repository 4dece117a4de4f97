-- ===== src/Freertos/Time.antt =====
-- targets/freertos/poski/osal/os_port.h: ticks and milliseconds, where `TickType_t` has 32 bits.
use poski.Base.{ℕ, ◌<◌, ◌≡◌, ◌↔◌}
use poski.Osal.Ticks.{scaled, scaled-exact_iff}

-- `rate` is configTICK_RATE_HZ.
unfoldable pub pos_time_ms_to_ticks : ℕ → ℕ → ℕ
pos_time_ms_to_ticks rate ms = scaled ms rate 1000

unfoldable pub pos_time_ticks_to_ms : ℕ → ℕ → ℕ
pos_time_ticks_to_ms rate ticks = scaled ticks 1000 rate

unfoldable pub pos_time_get_ms : ℕ → ℕ → ℕ
unfolding pos_time_ticks_to_ms
pos_time_get_ms rate now = pos_time_ticks_to_ms rate now

-- At 1000 ticks a second, milliseconds are converted to as many ticks exactly below 4294968.
pub ms_to_ticks-exact_iff : (ms : ℕ) → (pos_time_ms_to_ticks 1000 ms ≡ ms) ↔ (ms < 4294968)
unfolding pos_time_ms_to_ticks
ms_to_ticks-exact_iff ms = scaled-exact_iff ms

-- The time in milliseconds is right only as long: it starts again at 0 after some 71 minutes.
pub get_ms-exact_iff : (now : ℕ) → (pos_time_get_ms 1000 now ≡ now) ↔ (now < 4294968)
unfolding pos_time_get_ms pos_time_ticks_to_ms
get_ms-exact_iff now = scaled-exact_iff now
