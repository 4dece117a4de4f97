-- ===== src/Zephyr/Tests/Queues.antt =====
-- A queue of two messages.
use poski.Base.{
  ℕ, ◌+◌, ◌<◌, ◌≡◌, refl, true, false, Option, none, some, List, [], ◌∷◌, ◌++◌, length, take, arith,
  ltb, ℤ, pos, negsuc, if◌then◌else◌, Outcome, done,
}
use poski.Zephyr.Queue.{QueueApi, Queue}
use poski.Zephyr.Queue.Laws.{put_each, verdicts, put_each-take}

pub record Msgq : Type 0 where
  pub items : List (List ℕ)
  pub room : ℕ

abbrev pub get : Msgq → ℤ × Option (List ℕ) × Msgq
get q = elim q.items [
  | [] ↦ (negsuc 34, none, q)
  | m ∷ ms ↦ (pos 0, some m, record q { items = ms })
]

abbrev pub put : List ℕ → Msgq → ℤ × Msgq
put m q =
    if ltb (length q.items) q.room
    then (pos 0, record q { items = q.items ++ m ∷ [] })
    else (negsuc 34, q)

pub ltb-lt : (m n : ℕ) → m < n → ltb m n ≡ true
ltb-lt m n h = ground arith

pub ltb-same : (m n : ℕ) → m ≡ n → ltb m n ≡ false
ltb-same m n h = ground arith

pub get_message :
    (q : Msgq) (m : List ℕ) (ms : List (List ℕ))
    → q.items ≡ m ∷ ms
    → (q' : Msgq) × (◌≡◌ {A = Outcome (ℤ × Option (List ℕ) × Msgq)}
        (done (get q))
        (done (pos 0, some m, q')))
      × (q'.items ≡ ms)
      × (q'.room ≡ q.room)
get_message q m ms e = (record q { items = ms }, rw e refl, refl, refl)

pub put_room :
    (m : List ℕ) (q : Msgq)
    → length q.items < q.room
    → ((put m q).0 ≡ pos 0) × ((put m q).1.items ≡ q.items ++ m ∷ []) × ((put m q).1.room ≡ q.room)
put_room m q h = rw (ltb-lt (length q.items) q.room h) (refl, refl, refl)

abbrev pub kernel : QueueApi
kernel = record {
  Heap = ℕ;
  Msgq = Msgq;
  neg_enomsg = negsuc 34;
  messages = λ q. q.items;
  capacity = λ q. q.room;
  malloc = λ n heap. (some heap, heap + n);
  free = λ p heap. heap;
  k_msgq_init = λ buffer size most. record { items = []; room = most };
  k_msgq_get = λ t q. done (get q);
  k_msgq_put = λ m t q. put m q;
  num_used = λ q. length q.items;
  enomsg_lem = (refl, refl);
  init_lem = λ buffer size most. (refl, refl);
  get_message = λ t q m ms e. get_message q m ms e;
  get_empty = λ q e. rw e refl;
  put_room = put_room;
  put_full = λ m q e. rw (ltb-same (length q.items) q.room e) refl;
  num_used_lem = λ q. refl;
}

-- One message is in it.
abbrev queue : Queue kernel
queue = record {
  msgq = record { items = (1 ∷ 2 ∷ []) ∷ []; room = 2 };
  buffer = some 64;
  sig_cb = none;
  sig_arg = 0;
}

abbrev offered : List (List ℕ)
offered = (3 ∷ 4 ∷ []) ∷ (5 ∷ 6 ∷ []) ∷ (7 ∷ 8 ∷ []) ∷ []

put_each-take_example :
    ((put_each kernel queue offered).0 ≡ verdicts kernel 1 offered)
    × ((put_each kernel queue offered).1.msgq.items ≡ ((1 ∷ 2 ∷ []) ∷ []) ++ take 1 offered)
put_each-take_example = put_each-take kernel 1 offered queue refl
