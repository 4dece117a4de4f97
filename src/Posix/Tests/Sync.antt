-- ===== src/Posix/Tests/Sync.antt =====
-- A semaphore and a mutex of a system with one thread, and the conversions.
use poski.Base.{
  ℕ, zero, suc, ◌+◌, ◌/◌, ◌≤◌, ◌≡◌, ◌≢◌, refl, Bool, true, false, some, List, [], ◌∷◌, arith, ℤ,
  pos, negsuc, ◌==ℤ◌, ltb, if◌then◌else◌, Outcome, done, blocked, Ensures,
}
use poski.Osal.ErrorCode.{PosError, einval, timeout}
use poski.Osal.Semaphore
use poski.Posix.Utils.{map_posix_to_osal_error, einval_no, etimedout}
use poski.Posix.Time.{Timespec, nanos, pos_time_get_ms, deadline, time_get-nanos}
use poski.Posix.Sem.{SemApi, pos_sem_take}
use poski.Posix.Sem.Laws.{take-Takes, take-einval, posix_semaphore, run_posix-Balances}
use poski.Posix.Mutex.{MutexApi, pos_mutex_lock}
use poski.Posix.Mutex.Laws.{lock-einval}

-- Half a second after the hour.
abbrev clock : Timespec
clock = record { sec = 3600; nsec = 500_000_000 }

time_get-nanos_example : pos_time_get_ms (some clock) ≡ done (nanos clock / 1_000_000)
time_get-nanos_example = time_get-nanos clock (omega arith) (omega arith)

record Sem : Type 0 where
  count : ℕ
  err : ℤ

abbrev wait : Sem → Outcome (ℤ × Sem)
wait s = elim s.count [ zero ↦ blocked | suc n ↦ done (pos 0, record s { count = n }) ]

abbrev timedwait : Timespec → Sem → Outcome (ℤ × Sem)
timedwait t s = elim s.count [
  | zero ↦
      done (negsuc 0, record s { err = if ltb t.nsec 1_000_000_000 then etimedout else einval_no })
  | suc n ↦ done (pos 0, record s { count = n })
]

wait_lem :
    (n : ℕ) (s : Sem)
    → s.count ≡ n
    → Ensures {A = ℤ × Sem} (λ p. n ≡ (if p.0 ==ℤ pos 0 then suc p.1.count else p.1.count)) (wait s)
wait_lem zero s e = rw e tt
wait_lem (suc n) s e = rw e refl

timedwait_lem :
    (t : Timespec) (n : ℕ) (s : Sem)
    → s.count ≡ n
    → Ensures {A = ℤ × Sem}
        (λ p.
          (n ≡ (if p.0 ==ℤ pos 0 then suc p.1.count else p.1.count))
          × ((p.0 ≢ pos 0) → p.1.err ≢ pos 0))
        (timedwait t s)
timedwait_lem t zero s e = rw e (ground arith)
timedwait_lem t (suc n) s e = rw e (refl, λ ne. absurd (ne refl))

timedwait_invalid :
    (t : Timespec) (s : Sem)
    → s.count ≡ 0
    → 1_000_000_000 ≤ t.nsec
    → (s' : Sem) × (timedwait t s ≡ done (negsuc 0, s')) × (s'.err ≡ einval_no)
timedwait_invalid t s e le =
    (record { count = s.count; err = einval_no }, rw e (ground arith), refl)

abbrev sem : SemApi
sem = record {
  State = Sem;
  tokens = λ s. s.count;
  errno = λ s. s.err;
  sem_init = λ n s. (pos 0, record s { count = n });
  sem_post = λ s. (pos 0, record s { count = suc s.count });
  sem_wait = wait;
  sem_timedwait = timedwait;
  clock_gettime = λ s. (pos 0, clock, s);
  init_lem = λ n s h. refl;
  post_lem = λ s. refl;
  wait_lem = λ s. wait_lem s.count s refl;
  timedwait_lem = λ t s. timedwait_lem t s.count s refl;
  timedwait_invalid = timedwait_invalid;
  clock_lem = λ s. refl;
}

abbrev none_left : Sem
none_left = record { count = 0; err = pos 0 }

abbrev one_left : Sem
one_left = record { count = 1; err = pos 0 }

take-Takes_example :
    Ensures {A = PosError × Sem} (Semaphore.Takes (λ s. s.count) 1) (pos_sem_take sem 300 one_left)
take-Takes_example = take-Takes sem 300 one_left

-- 700 ms from half a second past is a second and 200 ms.
take-einval_example : (s' : Sem) × (pos_sem_take sem 700 none_left ≡ done (einval, s'))
take-einval_example = take-einval sem 700 none_left (omega arith) refl refl (omega arith)

abbrev script : List Semaphore.Op
script = Semaphore.takes 300 ∷ Semaphore.gives ∷ Semaphore.gives ∷ Semaphore.takes 0 ∷ []

run_posix-Balances_example :
    Ensures {A = List (Semaphore.Op × PosError) × Sem}
      (λ q. q.1.count + Semaphore.taken q.0 ≡ 0 + Semaphore.given q.0)
      (Semaphore.run (posix_semaphore sem) script none_left)
run_posix-Balances_example = run_posix-Balances sem script none_left

take_times_out :
    pos_sem_take sem 300 none_left ≡ done (timeout, record { count = 0; err = etimedout })
unfolding pos_sem_take map_posix_to_osal_error deadline
take_times_out = refl

-- A mutex that this thread holds so often, unless another one does.
record Lock : Type 0 where
  depth : ℕ
  busy : Bool

abbrev lock : Lock → Outcome (ℤ × Lock)
lock m = if m.busy then blocked else done (pos 0, record m { depth = suc m.depth })

abbrev timedlock : Timespec → Lock → Outcome (ℤ × Lock)
timedlock t m =
    if m.busy
    then (if ltb t.nsec 1_000_000_000 then done (etimedout, m) else done (einval_no, m))
    else done (pos 0, record m { depth = suc m.depth })

abbrev unlock : Lock → ℤ × Lock
unlock m = elim m.depth [ zero ↦ (pos 1, m) | suc n ↦ (pos 0, record m { depth = n }) ]

lock_lem :
    (b : Bool) (m : Lock)
    → m.busy ≡ b
    → Ensures {A = ℤ × Lock}
        (λ p. p.1.depth ≡ (if p.0 ==ℤ pos 0 then suc m.depth else m.depth))
        (lock m)
lock_lem true m e = rw e tt
lock_lem false m e = rw e refl

timedlock_lem :
    (t : Timespec) (b : Bool) (m : Lock)
    → m.busy ≡ b
    → Ensures {A = ℤ × Lock}
        (λ p. p.1.depth ≡ (if p.0 ==ℤ pos 0 then suc m.depth else m.depth))
        (timedlock t m)
timedlock_lem t true m e = rw e (ground arith)
timedlock_lem t false m e = rw e refl

timedlock_invalid :
    (t : Timespec) (m : Lock)
    → m.busy ≡ true
    → 1_000_000_000 ≤ t.nsec
    → (m' : Lock) × (timedlock t m ≡ done (einval_no, m'))
timedlock_invalid t m b le = (m, rw b (ground arith))

unlock_lem :
    (n : ℕ) (m : Lock)
    → m.depth ≡ n
    → n ≡ (if (unlock m).0 ==ℤ pos 0 then suc (unlock m).1.depth else (unlock m).1.depth)
unlock_lem zero m e = rw e refl
unlock_lem (suc n) m e = rw e refl

abbrev mutex : MutexApi
mutex = record {
  State = Lock;
  holds = λ m. m.depth;
  is_busy = λ m. m.busy;
  mutexattr_init = λ m. (pos 0, m);
  mutexattr_settype = λ m. (pos 0, m);
  mutex_init = λ m. (pos 0, m);
  mutex_lock = lock;
  mutex_timedlock = timedlock;
  mutex_unlock = unlock;
  clock_gettime = λ m. (pos 0, clock, m);
  lock_lem = λ m. lock_lem m.busy m refl;
  timedlock_lem = λ t m. timedlock_lem t m.busy m refl;
  timedlock_invalid = timedlock_invalid;
  unlock_lem = λ m. unlock_lem m.depth m refl;
  clock_lem = λ m. (refl, refl);
}

lock-einval_example :
    (s' : Lock) × (pos_mutex_lock mutex 700 (record { depth = 0; busy = true }) ≡ done (einval, s'))
lock-einval_example =
    lock-einval mutex 700 (record { depth = 0; busy = true }) (omega arith) refl refl (omega arith)
