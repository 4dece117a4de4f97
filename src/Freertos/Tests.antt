-- ===== src/Freertos/Tests.antt =====
-- The FreeRTOS port on concrete kernels.
mod Sync
pub mod Queues
pub mod Timers
