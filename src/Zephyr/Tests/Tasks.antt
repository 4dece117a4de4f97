-- ===== src/Zephyr/Tests/Tasks.antt =====
-- A kernel that creates every thread, and a semaphore without tokens.
use poski.Base.{
  ℕ, zero, suc, ◌+◌, ◌≡◌, ◌↔◌, refl, true, false, none, some, [], ◌∷◌, replicate, ltb, arith, ℤ,
  pos, ◌==ℤ◌, if◌then◌else◌, Outcome, done, blocked, Ensures,
}
use poski.Osal.ErrorCode.{enomem}
use poski.Zephyr.Utils.{Timeout, forever, no_wait, msec, neg_ebusy, neg_eagain}
use poski.Zephyr.Task.{
  Task, ThreadApi, World, find_unused, free_stack, started, pos_task_init, pos_task_remove,
}
use poski.Zephyr.Task.Owned.{Owned}
use poski.Zephyr.Task.Stacks.{Reach, boot, init, remove, Reach-Owned, init-enomem_iff}
use poski.Zephyr.Sync.{SemApi}

abbrev pub threads : ThreadApi
threads = record {
  State = ℕ;
  create = λ stack size func arg prio s. (some s, s + 1);
  name_set = λ tid name s. s;
  abort = λ tid s. s;
  k_yield = λ s. s;
  k_sleep = λ d s. s;
  k_current_get = λ s. some s;
}

abbrev pub at_boot : World threads
at_boot = record { system = 1; stack_used = replicate 10 false }

abbrev pub fresh : Task
fresh = record { tid = none; stack = none }

abbrev first : Task
first = record { tid = some 1; stack = some 0 }

abbrev second : Task
second = record { tid = some 2; stack = some 1 }

abbrev third : Task
third = record { tid = some 3; stack = some 0 }

abbrev two_live : World threads
two_live = record { system = 3; stack_used = true ∷ true ∷ replicate 8 false }

abbrev one_live : World threads
one_live = record { system = 3; stack_used = false ∷ true ∷ replicate 8 false }

abbrev again : World threads
again = record { system = 4; stack_used = true ∷ true ∷ replicate 8 false }

one_live-Reach : Reach threads one_live (second ∷ [])
unfolding pos_task_init pos_task_remove find_unused free_stack started
one_live-Reach = remove (second ∷ []) first [] (
    init {w' = two_live}
      (init {w' = record { system = 2; stack_used = true ∷ replicate 9 false }} (boot 1) fresh 5 11
        12 2 1024 refl)
      fresh 6 11 13 2 2048 refl)

-- The third task gets the stack that the first one had.
again-Reach : Reach threads again (third ∷ second ∷ [])
unfolding pos_task_init find_unused started
again-Reach = init one_live-Reach fresh 7 11 14 2 512 refl

Reach-Owned_example : Owned again.stack_used (third ∷ second ∷ [])
Reach-Owned_example = Reach-Owned threads again-Reach

init-enomem_iff_example :
    ((pos_task_init threads fresh 8 11 15 2 512 again).0 ≡ enomem) ↔ (◌≡◌ {A = ℕ} 2 10)
init-enomem_iff_example = init-enomem_iff threads again-Reach fresh 8 11 15 2 512 (omega arith)

-- A semaphore is its tokens and its limit.
abbrev take : Timeout → ℕ × ℕ → Outcome (ℤ × (ℕ × ℕ))
take forever (zero, most) = blocked
take no_wait (zero, most) = done (neg_ebusy, (0, most))
take (msec ms) (zero, most) = done (neg_eagain, (0, most))
take t (suc n, most) = done (pos 0, (n, most))

take_lem :
    (t : Timeout) (s : ℕ × ℕ)
    → Ensures {A = ℤ × (ℕ × ℕ)} (λ p. s.0 ≡ (if p.0 ==ℤ pos 0 then suc p.1.0 else p.1.0)) (take t s)
take_lem forever (zero, most) = tt
take_lem no_wait (zero, most) = refl
take_lem (msec ms) (zero, most) = refl
take_lem forever (suc n, most) = refl
take_lem no_wait (suc n, most) = refl
take_lem (msec ms) (suc n, most) = refl

poll_lem : (s : ℕ × ℕ) → s.0 ≡ 0 → (s' : ℕ × ℕ) × (take no_wait s ≡ done (neg_ebusy, s'))
poll_lem (zero, most) e = ((0, most), refl)
poll_lem (suc n, most) e = absurd (omega arith)

abbrev sem : SemApi
sem = record {
  State = ℕ × ℕ;
  tokens = λ s. s.0;
  limit = λ s. s.1;
  max_limit = 1000;
  k_sem_init = λ n most s. (n, most);
  k_sem_take = take;
  k_sem_give = λ s. (if ltb s.0 s.1 then suc s.0 else s.0, s.1);
  init_lem = λ n most s h. (refl, refl);
  take_lem = take_lem;
  poll_lem = poll_lem;
  give_lem = λ s. refl;
}
