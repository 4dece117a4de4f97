-- ===== src/RtThread/Queue/Laws.antt =====
-- The queue of targets/rt-thread/os_queue.c against the contract Osal.Queue, and a full and an empty one.
use poski.Base.{ℕ, ◌<◌, ◌≡◌, refl, Option, none, some, List, [], ◌∷◌, ◌++◌, length, Outcome, done}
use poski.Osal.ErrorCode.{PosError, ok, error}
use poski.Osal.Queue.{Delivers}
use poski.RtThread.Queue.{QueueApi, pos_queue_put, pos_queue_get}

module _ (A : QueueApi) (h size : ℕ) where
  open A use {State, messages, capacity, send, recv_message, recv_empty, send_room, send_full}

  abbrev pub put : List ℕ → State → Outcome (PosError × State)
  put m s = pos_queue_put A (some (record { handle = some h })) m s

  abbrev pub get : ℕ → State → Outcome (PosError × Option (List ℕ) × State)
  get tmo s = pos_queue_get A (record { handle = some h }) tmo s

  pub put_room :
      (m : List ℕ) (s : State)
      → Unit {0}
      → length m ≡ size
      → length (messages h s) < capacity h s
      → (s' : State) × (put m s ≡ done (ok, s'))
        × Unit {0}
        × (messages h s' ≡ messages h s ++ m ∷ [])
        × (capacity h s' ≡ capacity h s)
        × (size ≡ size)
  unfolding pos_queue_put
  put_room m s ready sized room =
      let (p, k, c) = send_room h m s room in ((send h m s).1, rw p refl, tt, k, c, refl)

  pub get_message :
      (tmo : ℕ) (s : State) (m : List ℕ) (ms : List (List ℕ))
      → Unit {0}
      → messages h s ≡ m ∷ ms
      → (s' : State) × (get tmo s ≡ done (ok, some m, s'))
        × Unit {0}
        × (messages h s' ≡ ms)
        × (capacity h s' ≡ capacity h s)
        × (size ≡ size)
  unfolding pos_queue_get
  get_message tmo s m ms ready e =
      let (s', p, k, c) = recv_message h tmo s m ms e in (s', rw p refl, tt, k, c, refl)

  -- For messages of the size that the queue was created with.
  abbrev pub rt_delivers : Delivers State put get
  rt_delivers = record {
    IsReady = λ s. Unit {0};
    messages = messages h;
    capacity = capacity h;
    msg_size = λ s. size;
    put_room = put_room;
    get_message = get_message;
  }

  -- A put to a full queue and a poll of an empty one return POS_ERROR, and leave the messages alone.
  pub put_full-poll_empty :
      (m : List ℕ) (s : State)
      → (length (messages h s) ≡ capacity h s
          → (s' : State) × (put m s ≡ done (error, s')) × (messages h s' ≡ messages h s))
        × (messages h s ≡ []
            → (s' : State) × (get 0 s ≡ done (error, none, s')) × (messages h s' ≡ []))
  unfolding pos_queue_put pos_queue_get
  put_full-poll_empty m s = (
    λ full. let (e, k) = send_full h m s full in ((send h m s).1, rw e refl, k),
    λ empty. let (s', p, k) = recv_empty h s empty in (s', rw p refl, k),
  )
