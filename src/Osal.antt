-- ===== src/Osal.antt =====
-- include/poski/osal: what the ports have in common, the error codes and what each primitive
-- promises to the code above it.
pub mod ErrorCode
pub mod Semaphore
pub mod Mutex
pub mod Ticks
pub mod Native
pub mod Queue
pub mod Timer
pub mod Panic
