-- ===== src/Wrapper.antt =====
-- include/poski: the C++ classes over the OSAL, as clients of its functions.
pub mod OsMutex
pub mod OsSemaphore
pub mod OsQueue
pub mod OsTask
pub mod OsTimer
pub mod OsTime
mod Tests
