-- ===== src/Wrapper/Tests.antt =====
-- The classes over a mutex, a semaphore and a queue of a single task.
mod Tasks
mod Mutexes
use poski.Base.{
  ℕ, zero, suc, ◌<◌, ◌≡◌, refl, true, false, Option, none, some, List, [], ◌∷◌, ◌++◌, arith,
  if◌then◌else◌, Outcome, done, ◌>>=◌, Ensures, ℤ, pos,
}
use poski.Osal.ErrorCode.{PosError, ok, error, timeout, bad_mutex, einval, is_ok}
use poski.Osal.Mutex.{Mutex}
use poski.Osal.Semaphore.{Semaphore}
use poski.Osal.Native.{NativeQueue, NativeTask}
use poski.Wrapper.OsMutex
use poski.Wrapper.OsMutex.Scope as MutexScope
use poski.Wrapper.OsSemaphore
use poski.Wrapper.OsSemaphore.Scope as SemScope
use poski.Wrapper.OsSemaphore.Threads as SemThreads
use poski.Wrapper.OsSemaphore.Threads.Pending.{Pc, idle, took, gave}
use poski.Wrapper.OsQueue
use poski.Wrapper.OsTask

-- A mutex is how often it is held.
abbrev unlock : ℕ → Outcome (PosError × ℕ)
unlock zero = done (bad_mutex, 0)
unlock (suc n) = done (ok, n)

unlock_lem :
    (n : ℕ) → Ensures {A = PosError × ℕ} (λ p. n ≡ (if is_ok p.0 then suc p.1 else p.1)) (unlock n)
unlock_lem zero = refl
unlock_lem (suc n) = refl

abbrev mutex : Mutex
mutex = record {
  State = ℕ;
  holds = λ n. n;
  lock = λ tmo n. done (ok, suc n);
  unlock = unlock;
  lock_lem = λ tmo n. refl;
  unlock_lem = unlock_lem;
}

unlock_works : (n : ℕ) → 0 < n → (n' : ℕ) × (unlock n ≡ done (ok, n'))
unlock_works zero h = absurd (omega arith)
unlock_works (suc n) h = (n, refl)

abbrev uses : List MutexScope.Use
uses = MutexScope.locks 5 ∷ MutexScope.locks 0 ∷ MutexScope.unlocks ∷ []

use_all-Releases_example :
    Ensures
      (MutexScope.Releases mutex)
      (OsMutex.init mutex ok true 5 0 >>= MutexScope.use_all mutex uses)
use_all-Releases_example =
    MutexScope.use_all-Releases mutex unlock_works ok true 5 0 uses refl (omega arith)

-- A semaphore is the number of its tokens.
abbrev take : ℕ → Outcome (PosError × ℕ)
take zero = done (timeout, 0)
take (suc n) = done (ok, n)

take_lem :
    (n : ℕ) → Ensures {A = PosError × ℕ} (λ p. n ≡ (if is_ok p.0 then suc p.1 else p.1)) (take n)
take_lem zero = refl
take_lem (suc n) = refl

abbrev sem : Semaphore
sem = record {
  State = ℕ;
  tokens = λ n. n;
  take = λ tmo n. take n;
  give = λ n. done (ok, suc n);
  take_lem = λ tmo n. take_lem n;
  give_lem = λ n. refl;
}

abbrev calls : List SemScope.Use
calls = SemScope.takes 5 ∷ SemScope.gives ∷ SemScope.takes 0 ∷ []

-- Thread 0 takes a token, thread 1 gives one and counts it, and then thread 0 counts its own.
abbrev constructed : OsSemaphore.OsSemaphore sem
constructed = record { sem = 2; take_depth = pos 1 }

abbrev shared : ℕ → ℤ → Pc → Pc → SemThreads.Shared sem
shared tokens depth p q = record {
  object = record { sem = tokens; take_depth = depth };
  threads = p ∷ q ∷ [];
}

interleaved : SemThreads.Reach sem constructed 2 4 (shared 2 (pos 1) idle idle)
interleaved =
    SemThreads.later {s = shared 2 (pos 0) took idle}
      (SemThreads.later {s = shared 2 (pos 1) took gave}
        (SemThreads.later {s = shared 1 (pos 1) took idle}
          (SemThreads.later SemThreads.start (SemThreads.take_step [] (idle ∷ []) 5 ok 1 refl refl))
          (SemThreads.give_step (took ∷ []) [] ok 2 refl refl))
        (SemThreads.count_give (took ∷ []) [] refl))
      (SemThreads.count_take [] (idle ∷ []) refl)

threads-Restores_example :
    (m : OsSemaphore.OsSemaphore sem) × (OsSemaphore.destroy sem 2
        (record { sem = 2; take_depth = pos 1 })
      ≡ done (some m))
    × (m.take_depth ≡ pos 0)
    × (m.sem ≡ 3)
unfolding OsSemaphore.init
threads-Restores_example =
    SemThreads.threads-Restores sem (λ n. (suc n, refl)) ok true 5 3 constructed refl 2 4
      (shared 2 (pos 1) idle idle) interleaved (omega arith) refl 1 refl

-- A queue is its messages.
abbrev queue : NativeQueue
queue = record {
  State = List (List ℕ);
  init = λ size most s. done (ok, []);
  deinit = λ s. (ok, []);
  get = λ tmo s. done (elim s [ [] ↦ (timeout, none, []) | m ∷ ms ↦ (ok, some m, ms) ]);
  put = λ m s. done (ok, s ++ m ∷ []);
  is_empty = λ s. done (elim s [ [] ↦ true | m ∷ ms ↦ false ]);
  inited = λ s. true;
  set_signal_cb = λ cb arg s. s;
}

abbrev filled : OsQueue.OsQueue queue
filled = record { queue = (1 ∷ 2 ∷ []) ∷ []; initialized = true; init_status = ok }

abbrev native_task : NativeTask
native_task = record {
  State = ℕ;
  init = λ name func arg prio stack_size s. (ok, suc s);
  remove = λ s. elim s [ zero ↦ (error, 0) | suc n ↦ (ok, n) ];
  yield = λ s. s;
  sleep = λ ticks s. s;
  sleep_ms = λ ms s. s;
  current_task_id = λ s. some s;
}

abbrev started : OsTask.OsTask native_task
started = record { task = 1; inited = true }
