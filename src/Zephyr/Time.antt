-- ===== src/Zephyr/Time.antt =====
-- targets/zephyr/os_time.c: the clock of the kernel, cut to 32 bits, and its conversions.
use poski.Base.{ℕ, ◌+◌, ◌-◌, ◌<◌, ◌≡◌, arith, u32}

-- `k_uptime_ticks` has 64 bits, the others 32.
pub record ClockApi : Type 0 where
  pub uptime_ticks : ℕ
  pub uptime_32 : ℕ
  pub ms_to_ticks_ceil32 : ℕ → ℕ
  pub ticks_to_ms_floor32 : ℕ → ℕ

unfoldable pub pos_time_get : ClockApi → ℕ
pos_time_get A = u32 A.uptime_ticks

unfoldable pub pos_time_get_ms : ClockApi → ℕ
pos_time_get_ms A = A.uptime_32

unfoldable pub pos_time_ms_to_ticks : ClockApi → ℕ → ℕ
pos_time_ms_to_ticks A ms = A.ms_to_ticks_ceil32 ms

unfoldable pub pos_time_ticks_to_ms : ClockApi → ℕ → ℕ
pos_time_ticks_to_ms A ticks = A.ticks_to_ms_floor32 ticks

-- The difference of two readings that are less than 2^32 ticks apart is the time between them, whether
-- or not the counter wrapped around.
pub time_get_elapsed :
    (A B : ClockApi) (d : ℕ)
    → B.uptime_ticks ≡ A.uptime_ticks + d
    → d < 4294967296
    → u32 (pos_time_get B + 4294967296 - pos_time_get A) ≡ d
unfolding pos_time_get
time_get_elapsed A B d e lt = omega arith
