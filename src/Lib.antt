-- ===== src/Lib.antt =====
-- poski: an operating system abstraction layer (OSAL) with ports to POSIX, FreeRTOS, RT-Thread and
-- Zephyr, and C++ classes over it.
--
-- The parts, and where they are modelled:
--
--   include/poski/OsRing.h            Ring: the ring buffer as a record of the class's fields, one
--                                     function per method; Ring.Fifo is the bounded queue that it
--                                     is compared with, Ring.Invariant what makes an object valid,
--                                     Ring.Observe the quotient by what clients see.
--   targets/posix/RingPthread.h       RingPthread: put, get and size as they run under the mutex, on
--                                     the ring; RingPthread.Threads: the three of any number of
--                                     threads as a step relation, a statement at a time, over a mutex
--                                     and condition variable with the laws of RingPthread.Monitor and
--                                     RingPthread.Condvar; Safety, Wakeup and Progress on what
--                                     they reach.
--   include/poski/osal                Osal: the error codes; what a semaphore, a mutex, a queue and a
--                                     one-shot timer promise, as interfaces; the functions that the
--                                     classes call.
--   targets/posix                     Posix: Utils, Time, Sem, Mutex, Timer, Task, Queue and Panic,
--                                     one module per file os_*.c; the queue stands on RingPthread.
--   targets/freertos                  Freertos: Time, Sem, Mutex, Queue, Timer, Task, Sched and
--                                     Panic.
--   targets/rt-thread                 RtThread: Sync (semaphore and mutex), Queue, Task (tasks and
--                                     timers), Sched and Panic.
--   targets/zephyr                    Zephyr: Utils, Sync (semaphore and mutex), Queue, Task with its
--                                     array of stacks, Timer, Time and Panic.
--   include/poski/Os*.h               Wrapper: OsMutex, OsSemaphore, OsQueue, OsTask, OsTimer and OsTime,
--                                     as clients of the interfaces of Osal; OsMutex.Threads and
--                                     OsSemaphore.Threads have several threads, OsQueue.Contract the queue of the POSIX port,
--                                     OsTask.OnZephyr the tasks of the Zephyr port.
--   the ports together                Ports: the queues of all four, and the timers of three of
--                                     them.
--
-- A function of a port keeps its name (pos_sem_take is Posix.Sem.pos_sem_take, Freertos.Sem.pos_sem_take
-- and so on); a method of a class has a name of its own, given by the map. The modules named Laws,
-- Refine, Invariant, Slots, Scope and the like hold what is proved, the modules named Tests concrete
-- objects and systems.
--
-- How the code is read. A call is a function from its arguments and the state to an Outcome (Base.Effects):
-- it returns, an assertion fails, its behaviour is undefined, or the calling thread has to wait. A call is
-- one atomic step, but in RingPthread.Threads, where each statement is one, and in Wrapper.OsMutex.Threads
-- and Wrapper.OsSemaphore.Threads, where the native call and the changes of the count are steps of their
-- own. Objects are records, and a pointer that may be null is an Option. Callbacks, their arguments, names
-- and handles are numbers, and a message or a buffer is a list of numbers, one for a byte. The numbers of C
-- are natural numbers, with the wrap-around of each width written out; where POSIX computes in double,
-- Posix.Time says why the result is the one of the model.
--
-- The kernels and libraries below the ports are parameters: records such as Posix.Sem.SemApi with the
-- functions that the code calls and the laws that their documentation gives. The modules named Tests fill
-- each with a small system. What the OSAL promises of semaphores and mutexes is the interface
-- Osal.Semaphore or Osal.Mutex, which each port but Zephyr, whose semaphore has a limit, fills with its
-- own, and of which the classes OsSemaphore and OsMutex are clients. What it promises of queues and timers
-- is Osal.Queue.Delivers and Osal.Timer.OneShot; the modules named Contract fill them, and a run over
-- either makes the calls in a list and is compared with a list of messages or with a flag and a callback.
-- RT-Thread has no function that stops a timer, so that its timers have no Contract. Posix.Apple has the
-- branches for Apple's systems of the semaphore, the mutex and the timer.
--
-- Fuel. The loops over lists are structural. The loops of the destructors of OsMutex and OsSemaphore
-- take a number of tests of their condition, and their result is `none` if that does not end them; each
-- round lowers the depth by one, so one more than the depth is enough, and that is what they are given.
-- Ring.init computes its test of a power of two with the bits of the number.
--
-- Not modelled: allocation failure of new, signals and thread cancellation, scheduling and fairness,
-- locks with a timeout of one POSIX mutex by several threads at the same time, which share a field for
-- their deadlines, the branches for Apple's systems of the clock, whose reading in microseconds is
-- rounded in double, and of the scheduler, the tests, and the configuration of the builds.
pub mod Base
pub mod Ring
pub mod RingPthread
pub mod Osal
pub mod Posix
pub mod Freertos
pub mod RtThread
pub mod Zephyr
pub mod Ports
pub mod Wrapper
