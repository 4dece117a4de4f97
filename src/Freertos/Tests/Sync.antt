-- ===== src/Freertos/Tests/Sync.antt =====
-- A kernel with one semaphore, and one that creates tasks.
use poski.Base.{
  ℕ, zero, suc, ◌+◌, ◌≤◌, ◌≡◌, refl, Bool, true, false, none, some, arith, ltb, if◌then◌else◌, done,
  assert_failed,
}
use poski.Osal.ErrorCode.{ok}
use poski.Freertos.Sem.{SemApi, Taken, Given, pos_sem_init}
use poski.Freertos.Sem.Laws.{sem_at, give_all, give_all-init}
use poski.Freertos.Task.{TaskApi}

record Kernel : Type 0 where
  isr : Bool
  count : ℕ
  limit : ℕ

abbrev take : Kernel → Bool × Kernel
take s = elim s.count [ zero ↦ (false, s) | suc n ↦ (true, record s { count = n }) ]

abbrev give : Kernel → Bool × Kernel
give s = if ltb s.count s.limit then (true, record s { count = suc s.count }) else (false, s)

take-Taken : (n : ℕ) (s : Kernel) → s.count ≡ n → Taken n (take s).0 (take s).1.count
take-Taken zero s e = rw e refl
take-Taken (suc n) s e = rw e refl

give-Given : (s : Kernel) → Given s.count s.limit (give s).0 (give s).1.count (give s).1.limit
give-Given s = record {
  added = ground arith;
  same_max = ground arith;
  room = λ h. ground arith;
  full = λ h. ground arith;
}

abbrev kernel : SemApi
kernel = record {
  State = Kernel;
  in_isr = λ s. s.isr;
  tokens = λ h s. s.count;
  maximum = λ h s. s.limit;
  create_counting = λ most n s. (some 1, record s { count = n; limit = most });
  take = λ h tmo s. done (take s);
  take_from_isr = λ h s. ((take s).0, false, (take s).1);
  give = λ h s. give s;
  give_from_isr = λ h s. ((give s).0, true, (give s).1);
  yield_from_isr = λ woken s. s;
  create_lem = λ most n h s e. (refl, refl);
  take_lem = λ h tmo s. take-Taken s.count s refl;
  take_from_isr_lem = λ h s. take-Taken s.count s refl;
  give_lem = λ h s. give-Given s;
  give_from_isr_lem = λ h s. give-Given s;
  yield_lem = λ woken h s. (refl, refl);
}

abbrev booted : Kernel
booted = record { isr = false; count = 0; limit = 0 }

abbrev interrupted : Kernel
interrupted = record { isr = true; count = 3; limit = 128 }

give_all-init_example :
    (s' : Kernel) × (pos_sem_init kernel (some (record { handle = none })) 126 booted
      ≡ done (ok, sem_at kernel 1, s'))
    × ((k : ℕ)
        → 126 + k ≤ 128
        → (s'' : Kernel) × (give_all kernel 1 k s' ≡ done s'') × (s''.count ≡ 126 + k))
    × ((k : ℕ) → 126 + k ≡ 129 → give_all kernel 1 k s' ≡ assert_failed)
give_all-init_example =
    give_all-init kernel (record { handle = none }) 126 1 booted (omega arith) refl

abbrev tasks : TaskApi
tasks = record { State = ℕ; base_size = 4; create = λ name words prio s. (true, some s, s + 1) }
