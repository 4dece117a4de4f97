-- ===== src/Posix/Queue/Laws.antt =====
-- The calls of targets/posix/os_queue.cc on a queue that holds some messages.
use mathlib.Core.Option
use native.Mathlib.Decide.{ℕ_discrete}
use poski.Base.{
  ℕ, ◌*◌, ◌^◌, ◌<◌, ◌≡◌, ◌≢◌, refl, sym, ap, ◌∙◌, none, some, List, [], ◌∷◌, ◌++◌, arith, length,
  ◌==◌, ne→==, u16, if◌then◌else◌, done, assert_failed, blocked,
}
use poski.Ring
use poski.Ring.{Ring}
use poski.Ring.Invariant.{IsValid}
use poski.Ring.Refine.{contents, length-contents, push_back-overflow, push_back-room}
use poski.Ring.Create.{fresh, init_iff, init-assert, fresh-IsValid}
use poski.RingPthread
use poski.RingPthread.Spec.{get-item, get-poll, get-blocks}
use poski.Osal.ErrorCode.{ok, timeout}
use poski.Posix.Queue.{
  Queue, pos_queue_init, pos_queue_put, pos_queue_get, pos_queue_deinit, pos_queue_inited,
}

-- The queue is initialised, and its ring is valid and holds `messages`.
pub record Holds (msgq : Queue) (size cap : ℕ) (messages : List (List ℕ)) : Type 0 where
  pub ring : Ring
  pub at : msgq.q ≡ some ring
  pub valid : IsValid ring
  pub msg_size : ring.item_size ≡ size
  pub max_msgs : ring.item_count ≡ cap
  pub held : contents ring ≡ messages

-- A message of the right size that still fits is stored behind the others, with POS_OK, and the signal
-- callback is called with its argument, if one is set.
pub put-Holds :
    {msgq : Queue} {size cap : ℕ} {messages : List (List ℕ)} (item : List ℕ)
    → Holds msgq size cap messages
    → length item ≡ size
    → length messages < cap
    → (q' : Queue) × (pos_queue_put msgq item
        ≡ done (ok, q', elim msgq.sig_cb [ none ↦ none | some cb ↦ some (cb, msgq.sig_arg) ]))
      × Holds q' size cap (messages ++ item ∷ [])
unfolding pos_queue_put RingPthread.put
put-Holds {msgq} item h e room =
    let (r', p, k, c) =
      push_back-room h.valid item (e ∙ sym h.msg_size)
        (omega (arith, length-contents h.ring, ap length h.held, h.max_msgs)) in
    (
      record msgq { q = some r' },
      rw (h.at, p) refl,
      record {
        ring = r';
        at = refl;
        valid = k.valid;
        msg_size = k.same_size ∙ h.msg_size;
        max_msgs = k.same_count ∙ h.max_msgs;
        held = c ∙ ap (λ l. l ++ item ∷ []) h.held;
      },
    )

-- A put to a full queue does not return: the assertion in the ring fails.
pub put-full :
    {msgq : Queue} {size cap : ℕ} {messages : List (List ℕ)} (item : List ℕ)
    → Holds msgq size cap messages
    → length messages ≡ cap
    → pos_queue_put msgq item ≡ assert_failed
unfolding pos_queue_put RingPthread.put
put-full {msgq} item h full =
    rw
      (
        h.at,
        push_back-overflow h.ring item
            (omega (arith, length-contents h.ring, ap length h.held, h.max_msgs)),
      )
      refl

-- A get returns the oldest message with POS_OK; on an empty queue a poll returns POS_TIMEOUT, and a
-- get with any other timeout waits.
pub get-Holds :
    {msgq : Queue} {size cap : ℕ} (item : List ℕ) {messages : List (List ℕ)} (tmo : ℕ)
    → Holds msgq size cap (item ∷ messages)
    → (q' : Queue) × (pos_queue_get msgq tmo ≡ done (ok, q', some item))
      × Holds q' size cap messages
unfolding pos_queue_get
get-Holds {msgq} item {messages} tmo h =
    let (x, r', g, k, c) = get-item {r = h.ring} tmo h.valid nonempty in
    (
      record msgq { q = some r' },
      rw (h.at, g) (ap (λ y. done (ok, record msgq { q = some r' }, some y)) (head_eq x r' c)),
      record {
        ring = r';
        at = refl;
        valid = k.valid;
        msg_size = k.same_size ∙ h.msg_size;
        max_msgs = k.same_count ∙ h.max_msgs;
        held = tail_eq x r' c;
      },
    )
  where
    nonempty : Ring.size h.ring ≢ 0
    nonempty z = absurd (omega (arith, length-contents h.ring, ap length h.held))

    head_eq : (x : List ℕ) (r' : Ring) → contents h.ring ≡ x ∷ contents r' → x ≡ item
    head_eq x r' c = cc (h.held)

    tail_eq : (x : List ℕ) (r' : Ring) → contents h.ring ≡ x ∷ contents r' → contents r' ≡ messages
    tail_eq x r' c = cc (h.held)

pub get-empty :
    {msgq : Queue} {size cap : ℕ} (tmo : ℕ)
    → Holds msgq size cap []
    → pos_queue_get msgq tmo ≡ (if tmo == 0 then done (timeout, msgq, none) else blocked)
unfolding pos_queue_get
get-empty {msgq} tmo h = elim (ℕ_discrete tmo 0) [
  | yes p ↦ rw (p, h.at, get-poll h.ring no_item) refl
  | no ne ↦ rw (h.at, get-blocks h.ring tmo no_item ne, ne→== tmo 0 ne) refl
]
  where
    no_item : Ring.size h.ring ≡ 0
    no_item = omega (arith, length-contents h.ring, ap length h.held)

-- A queue that is initialised with a power of two for the number of messages is empty; both sizes are
-- cut to 16 bits. The allocator returns as many bytes as it is asked for.
pub init-Holds :
    (new_bytes : ℕ → List ℕ) (msg_size max_msgs : ℕ)
    → ((n : ℕ) → length (new_bytes n) ≡ n)
    → (k : ℕ) × (u16 max_msgs ≡ 2 ^ k)
    → (q' : Queue) × (pos_queue_init new_bytes msg_size max_msgs ≡ done (ok, q'))
      × Holds q' (u16 msg_size) (u16 max_msgs) []
unfolding pos_queue_init RingPthread.init
init-Holds new_bytes msg_size max_msgs alloc power =
    let storage = new_bytes (u16 msg_size * u16 max_msgs) in
    let (v, e) =
      fresh-IsValid storage (u16 msg_size) (u16 max_msgs) (omega arith) (omega arith)
        (alloc (u16 msg_size * u16 max_msgs)) power in
    (
      record { q = some (fresh storage (u16 msg_size) (u16 max_msgs)); sig_cb = none; sig_arg = 0 },
      rw ((init_iff storage (u16 msg_size) (u16 max_msgs)).0 power) refl,
      record {
        ring = fresh storage (u16 msg_size) (u16 max_msgs);
        at = refl;
        valid = v;
        msg_size = refl;
        max_msgs = refl;
        held = e;
      },
    )

-- With any other number of messages it does not return: the assertion of the ring fails.
pub init-fails :
    (new_bytes : ℕ → List ℕ) (msg_size max_msgs : ℕ)
    → ((k : ℕ) → u16 max_msgs ≢ 2 ^ k)
    → pos_queue_init new_bytes msg_size max_msgs ≡ assert_failed
unfolding pos_queue_init RingPthread.init
init-fails new_bytes msg_size max_msgs no_power =
    rw
      (init-assert (new_bytes (u16 msg_size * u16 max_msgs)) (u16 msg_size) (u16 max_msgs) no_power)
      refl

-- Deinitialising a queue a second time deletes nothing, and it is then not initialised.
pub deinit_twice :
    (msgq : Queue)
    → let (_, after, _) = pos_queue_deinit (some msgq) in
      (pos_queue_deinit after ≡ (ok, after, none)) × (Option.map pos_queue_inited after ≡ some 0)
unfolding pos_queue_deinit pos_queue_inited
deinit_twice msgq = (refl, refl)
