-- ===== src/Zephyr/Tests.antt =====
-- The Zephyr port on concrete kernels.
pub mod Tasks
pub mod Queues
