-- ===== src/Osal/Ticks.antt =====
-- The conversions between milliseconds and ticks of poski/osal/os_time.h, as the ports with 32-bit
-- ticks compute them: the product wraps around before the division.
use poski.Base.{ℕ, ◌*◌, ◌/◌, ◌<◌, ◌≡◌, ◌↔◌, arith, u32}

abbrev pub scaled : ℕ → ℕ → ℕ → ℕ
scaled n numerator denominator = u32 (n * numerator) / denominator

-- With as many ticks as milliseconds, the conversion is exact below 2^32 / 1000 milliseconds, some 71
-- minutes, and wrong from there on.
pub scaled-exact_iff : (ms : ℕ) → (scaled ms 1000 1000 ≡ ms) ↔ (ms < 4294968)
scaled-exact_iff ms = (λ h. omega arith, λ h. omega arith)
