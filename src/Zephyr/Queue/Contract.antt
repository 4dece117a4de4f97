-- ===== src/Zephyr/Queue/Contract.antt =====
-- The queue of targets/zephyr/os_queue.c against the contract Osal.Queue.
use poski.Base.{ℕ, ◌<◌, ◌≡◌, refl, Option, some, List, [], ◌∷◌, ◌++◌, length, Outcome, done}
use poski.Osal.ErrorCode.{PosError, ok}
use poski.Osal.Queue.{Delivers}
use poski.Zephyr.Utils.{no_wait, kernel_timeout, result_of}
use poski.Zephyr.Queue.{QueueApi, Queue, pos_queue_put, pos_queue_get}

module _ (A : QueueApi) (size : ℕ) where
  open A use {messages, capacity}

  -- The calls without the call of the signal callback.
  abbrev pub put : List ℕ → Queue A → Outcome (PosError × Queue A)
  put m queue = let (e, call, q) = pos_queue_put A queue m in done (e, q)

  abbrev pub get : ℕ → Queue A → Outcome (PosError × Option (List ℕ) × Queue A)
  get tmo queue = pos_queue_get A queue tmo

  pub put_room :
      (m : List ℕ) (queue : Queue A)
      → Unit {0}
      → length m ≡ size
      → length (messages queue.msgq) < capacity queue.msgq
      → (q' : Queue A) × (put m queue ≡ done (ok, q'))
        × Unit {0}
        × (messages q'.msgq ≡ messages queue.msgq ++ m ∷ [])
        × (capacity q'.msgq ≡ capacity queue.msgq)
        × (size ≡ size)
  unfolding pos_queue_put
  put_room m queue ready sized room =
      let (p, k, c) = A.put_room m queue.msgq room in
      (record queue { msgq = (A.k_msgq_put m no_wait queue.msgq).1 }, rw p refl, tt, k, c, refl)

  pub get_message :
      (tmo : ℕ) (queue : Queue A) (m : List ℕ) (ms : List (List ℕ))
      → Unit {0}
      → messages queue.msgq ≡ m ∷ ms
      → (q' : Queue A) × (get tmo queue ≡ done (ok, some m, q'))
        × Unit {0}
        × (messages q'.msgq ≡ ms)
        × (capacity q'.msgq ≡ capacity queue.msgq)
        × (size ≡ size)
  unfolding pos_queue_get result_of
  get_message tmo queue m ms ready e =
      let (q', p, k, c) = A.get_message (kernel_timeout tmo) queue.msgq m ms e in
      (record queue { msgq = q' }, rw p refl, tt, k, c, refl)

  -- For messages of the size that the queue was initialised with.
  abbrev pub zephyr_delivers : Delivers (Queue A) put get
  zephyr_delivers = record {
    IsReady = λ queue. Unit {0};
    messages = λ queue. messages queue.msgq;
    capacity = λ queue. capacity queue.msgq;
    msg_size = λ queue. size;
    put_room = put_room;
    get_message = get_message;
  }
