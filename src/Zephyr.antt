-- ===== src/Zephyr.antt =====
-- targets/zephyr: the port to Zephyr. A call that has to wait is `blocked`, and a wait that ends by its
-- timeout returns -EAGAIN.
pub mod Utils
pub mod Panic
pub mod Time
pub mod Task
pub mod Sync
pub mod Queue
pub mod Timer
pub mod Tests
