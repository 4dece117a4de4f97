-- ===== src/Freertos.antt =====
-- targets/freertos: the port to FreeRTOS. The kernel is a parameter of each module; a task that has to
-- wait is `blocked`, and a wait that ends by its timeout is a call that returns no success.
pub mod Time
pub mod Sem
pub mod Mutex
pub mod Queue
pub mod Timer
pub mod Task
pub mod Sched
pub mod Panic
pub mod Tests
