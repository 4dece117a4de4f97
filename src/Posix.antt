-- ===== src/Posix.antt =====
-- targets/posix: the port to Linux and other POSIX systems, and in Posix.Apple two branches for
-- Apple's.
pub mod Utils
pub mod Panic
pub mod Time
pub mod Sem
pub mod Mutex
pub mod Timer
pub mod Task
pub mod Queue
pub mod Apple
pub mod Tests
