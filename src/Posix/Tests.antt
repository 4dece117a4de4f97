-- ===== src/Posix/Tests.antt =====
-- The POSIX port on concrete systems.
mod Sync
pub mod Timers
mod Threads
