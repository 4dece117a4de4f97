-- ===== src/RtThread.antt =====
-- targets/rt-thread: the port to RT-Thread. A call that has to wait is `blocked`, and a wait that ends
-- by its timeout returns -RT_ETIMEOUT.
pub mod Sync
pub mod Queue
pub mod Task
pub mod Sched
pub mod Panic
mod Tests
