-- ===== src/Zephyr/Queue.antt =====
-- targets/zephyr/os_queue.c.
pub mod Laws
pub mod Contract
use poski.Base.{
  ℕ, ◌*◌, ◌<◌, ◌≡◌, Bool, true, false, Option, none, some, List, [], ◌∷◌, ◌++◌, length, ◌==◌, ℤ,
  pos, negsuc, ◌==ℤ◌, if◌then◌else◌, Outcome, done, ◌>>=◌,
}
use poski.Osal.ErrorCode.{PosError, ok, enomem, ebusy, error}
use poski.Zephyr.Utils.{Timeout, no_wait, kernel_timeout, result_of, neg_eagain}

-- The message queues of the kernel, as values, and the heap. `enomsg` is the negative ENOMSG, which a
-- call returns that may not wait, for a full or an empty queue.
pub record QueueApi : Type 1 where
  pub Heap : Type 0
  pub Msgq : Type 0
  pub neg_enomsg : ℤ
  pub messages : Msgq → List (List ℕ)
  pub capacity : Msgq → ℕ
  pub malloc : ℕ → Heap → Option ℕ × Heap
  pub free : ℕ → Heap → Heap
  pub k_msgq_init : ℕ → ℕ → ℕ → Msgq
  pub k_msgq_get : Timeout → Msgq → Outcome (ℤ × Option (List ℕ) × Msgq)
  pub k_msgq_put : List ℕ → Timeout → Msgq → ℤ × Msgq
  pub num_used : Msgq → ℕ
  pub enomsg_lem : (neg_enomsg ==ℤ pos 0 ≡ false) × (neg_enomsg ==ℤ neg_eagain ≡ false)
  pub init_lem :
      (buffer size most : ℕ)
      → (messages (k_msgq_init buffer size most) ≡ [])
        × (capacity (k_msgq_init buffer size most) ≡ most)
  pub get_message :
      (t : Timeout) (q : Msgq) (m : List ℕ) (ms : List (List ℕ))
      → messages q ≡ m ∷ ms
      → (q' : Msgq) × (k_msgq_get t q ≡ done (pos 0, some m, q'))
        × (messages q' ≡ ms)
        × (capacity q' ≡ capacity q)
  pub get_empty : (q : Msgq) → messages q ≡ [] → k_msgq_get no_wait q ≡ done (neg_enomsg, none, q)
  pub put_room :
      (m : List ℕ) (q : Msgq)
      → length (messages q) < capacity q
      → ((k_msgq_put m no_wait q).0 ≡ pos 0)
        × (messages (k_msgq_put m no_wait q).1 ≡ messages q ++ m ∷ [])
        × (capacity (k_msgq_put m no_wait q).1 ≡ capacity q)
  pub put_full :
      (m : List ℕ) (q : Msgq)
      → length (messages q) ≡ capacity q
      → k_msgq_put m no_wait q ≡ (neg_enomsg, q)
  pub num_used_lem : (q : Msgq) → num_used q ≡ length (messages q)

module _ (A : QueueApi) where
  open A use {Heap, Msgq, malloc, free, k_msgq_init, k_msgq_get, k_msgq_put, num_used}

  -- `struct pos_queue`; a callback and its argument are numbers, and null is `none`.
  pub record Queue : Type 0 where
    pub msgq : Msgq
    pub buffer : Option ℕ
    pub sig_cb : Option ℕ
    pub sig_arg : ℕ

  unfoldable pub pos_queue_init : Queue → ℕ → ℕ → Heap → PosError × Queue × Heap
  pos_queue_init queue msg_size max_msgs heap =
      let (buffer, heap') = malloc (msg_size * max_msgs) heap in
      elim buffer [
        | none ↦ (enomem, record queue { buffer = none }, heap')
        | some b ↦ (
          ok,
          record {
            msgq = k_msgq_init b msg_size max_msgs;
            buffer = some b;
            sig_cb = none;
            sig_arg = 0;
          },
          heap',
        )
      ]

  -- With the message that it copies to the caller.
  unfoldable pub pos_queue_get : Queue → ℕ → Outcome (PosError × Option (List ℕ) × Queue)
  unfolding kernel_timeout result_of
  pos_queue_get queue tmo = k_msgq_get (kernel_timeout tmo) queue.msgq >>= λ p.
      done (result_of p.0, p.1, record queue { msgq = p.2 })

  -- With the call of the callback that it makes.
  unfoldable pub pos_queue_put : Queue → List ℕ → PosError × Option (ℕ × ℕ) × Queue
  pos_queue_put queue item =
      let (err, q) = k_msgq_put item no_wait queue.msgq in
      if err ==ℤ pos 0
      then (
        ok,
        elim queue.sig_cb [ none ↦ none | some cb ↦ some (cb, queue.sig_arg) ],
        record queue { msgq = q },
      )
      else if err ==ℤ neg_eagain
      then (ebusy, none, record queue { msgq = q })
      else (error, none, record queue { msgq = q })

  unfoldable pub pos_queue_inited : Queue → Bool
  pos_queue_inited queue = elim queue.buffer [ none ↦ false | some _ ↦ true ]

  unfoldable pub pos_queue_is_empty : Queue → Bool
  pos_queue_is_empty queue = num_used queue.msgq == 0

  unfoldable pub pos_queue_set_signal_cb : Queue → Option ℕ → ℕ → Queue
  pos_queue_set_signal_cb queue signal_cb arg = record queue { sig_cb = signal_cb; sig_arg = arg }

  unfoldable pub pos_queue_deinit : Option Queue → Heap → PosError × Option Queue × Heap
  pos_queue_deinit none heap = (ok, none, heap)
  pos_queue_deinit (some queue) heap = elim queue.buffer [
    | none ↦ (ok, some queue, heap)
    | some b ↦ (ok, some (record queue { buffer = none }), free b heap)
  ]
