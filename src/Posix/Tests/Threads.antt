-- ===== src/Posix/Tests/Threads.antt =====
-- Threads of a system in which every call succeeds, and a queue of two messages of two bytes.
use poski.Base.{
  false, ℕ, ◌*◌, ◌≡◌, refl, none, some, List, [], ◌∷◌, length, length-replicate, replicate, arith,
  pos, if◌then◌else◌, done, assert_failed, ◌>>=◌,
}
use poski.Ring.{Ring, size, item_at, offset}
use poski.Ring.Invariant.{IsValid}
use poski.Ring.Create.{fresh, fresh-IsValid}
use poski.Osal.ErrorCode.{ok, is_ok}
use poski.Posix.Task.{ThreadApi, World, pos_task_init, pos_task_sleep_ms}
use poski.Posix.Task.Laws.{init-count, slept, slept-sleep_ms}
use poski.Posix.Queue.{Queue, pos_queue_init, pos_queue_put}
use poski.Posix.Queue.Laws.{Holds, init-Holds, put-full}
use poski.Posix.Queue.Clients.{put_all, get_all, get_all-put_all}

-- The number of threads, which is also the handle of the next one.
abbrev threads : ThreadApi
threads = record {
  State = ℕ;
  stack_min = 16384;
  attr_init = λ s. (pos 0, s);
  attr_getschedparam = λ s. (pos 0, s);
  attr_setschedpolicy = λ s. (pos 0, s);
  attr_setstacksize = λ n s. (pos 0, s);
  attr_setschedparam = λ n s. (pos 0, s);
  create = λ f a s. (pos 0, some s, s * 1);
  cancel = λ h s. (pos 0, s);
}

abbrev one_task : World threads
one_task = record {
  system = 5;
  task = record { handle = none; sched_priority = 0; name = 0 };
  s_task_count = pos 1;
}

init-count_example :
    let (e, w') = pos_task_init threads false 3 (some 11) 12 2 4096 one_task in
    w'.s_task_count ≡ (if is_ok e then pos 2 else pos 1)
init-count_example = init-count threads false 3 (some 11) 12 2 4096 one_task

-- A sleep of a second and a half that a signal interrupts after a second.
slept-sleep_ms_example :
    slept
      (pos_task_sleep_ms 1500 (record { sec = 0; nsec = 500_000_000 } ∷ []))
      (record { sec = 0; nsec = 500_000_000 } ∷ [])
    ≡ 1500 * 1_000_000
slept-sleep_ms_example =
    slept-sleep_ms 1500 (record { sec = 0; nsec = 500_000_000 } ∷ []) (omega arith, tt)

abbrev memory : ℕ → List ℕ
memory n = replicate n 0

length-memory : (n : ℕ) → length (memory n) ≡ n
length-memory n = length-replicate n 0

init-Holds_example : (q' : Queue) × (pos_queue_init memory 2 2 ≡ done (ok, q')) × Holds q' 2 2 []
init-Holds_example = init-Holds memory 2 2 length-memory (1, refl)

abbrev empty_ring : Ring
empty_ring = fresh (replicate 4 0) 2 2

abbrev queue : Queue
queue = record { q = some empty_ring; sig_cb = none; sig_arg = 0 }

queue-Holds : Holds queue 2 2 []
queue-Holds =
    let (v, c) = fresh-IsValid (replicate 4 0) 2 2 (omega arith) (omega arith) refl (1, refl) in
    record { ring = empty_ring; at = refl; valid = v; msg_size = refl; max_msgs = refl; held = c }

-- The queue after two puts.
abbrev full_ring : Ring
full_ring = record empty_ring { buffer = 7 ∷ 8 ∷ 9 ∷ 10 ∷ []; write_index = 2 }

abbrev full_queue : Queue
full_queue = record queue { q = some full_ring }

full_ring-IsValid : IsValid full_ring
unfolding size
full_ring-IsValid = record {
  width = 1;
  width_le = omega arith;
  power = refl;
  small_item = omega arith;
  sized = refl;
  read_lt = omega arith;
  write_lt = omega arith;
  size_le = omega arith;
}

full_queue-Holds : Holds full_queue 2 2 ((7 ∷ 8 ∷ []) ∷ (9 ∷ 10 ∷ []) ∷ [])
unfolding size item_at offset
full_queue-Holds = record {
  ring = full_ring;
  at = refl;
  valid = full_ring-IsValid;
  msg_size = refl;
  max_msgs = refl;
  held = refl;
}

get_all-put_all_example :
    (q' : Queue) × ((put_all queue ((7 ∷ 8 ∷ []) ∷ (9 ∷ 10 ∷ []) ∷ []) >>= λ q. get_all 5 q 2)
      ≡ done (some (7 ∷ 8 ∷ []) ∷ some (9 ∷ 10 ∷ []) ∷ [], q'))
    × Holds q' 2 2 []
get_all-put_all_example =
    get_all-put_all 5 ((7 ∷ 8 ∷ []) ∷ (9 ∷ 10 ∷ []) ∷ []) queue-Holds (refl, (refl, tt))
      (omega arith)

full_queue_aborts : pos_queue_put full_queue (1 ∷ 2 ∷ []) ≡ assert_failed
full_queue_aborts = put-full (1 ∷ 2 ∷ []) full_queue-Holds refl
