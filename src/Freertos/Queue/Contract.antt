-- ===== src/Freertos/Queue/Contract.antt =====
-- The queue of targets/freertos/os_queue.c, in a task, against the contract Osal.Queue.
use poski.Base.{
  ℕ, ◌<◌, ◌≡◌, refl, ◌∙◌, false, Option, some, List, [], ◌∷◌, ◌++◌, length, Outcome, done,
}
use poski.Osal.ErrorCode.{PosError, ok}
use poski.Osal.Queue.{Delivers}
use poski.Freertos.Queue.{QueueApi, pos_queue_put, pos_queue_get}

module _ (A : QueueApi) (h size : ℕ) where
  open A use {State, in_isr, messages, capacity, receive_message, send_room}

  abbrev pub put : List ℕ → State → Outcome (PosError × State)
  put m s = pos_queue_put A (record { handle = some h }) m s

  abbrev pub get : ℕ → State → Outcome (PosError × Option (List ℕ) × State)
  get tmo s = pos_queue_get A (record { handle = some h }) tmo s

  pub put_room :
      (m : List ℕ) (s : State)
      → in_isr s ≡ false
      → length m ≡ size
      → length (messages h s) < capacity h s
      → (s' : State) × (put m s ≡ done (ok, s'))
        × (in_isr s' ≡ false)
        × (messages h s' ≡ messages h s ++ m ∷ [])
        × (capacity h s' ≡ capacity h s)
        × (size ≡ size)
  unfolding pos_queue_put
  put_room m s task sized room =
      let (s', p, k, c, i) = send_room h m s room in (s', rw (task, p) refl, i ∙ task, k, c, refl)

  pub get_message :
      (tmo : ℕ) (s : State) (m : List ℕ) (ms : List (List ℕ))
      → in_isr s ≡ false
      → messages h s ≡ m ∷ ms
      → (s' : State) × (get tmo s ≡ done (ok, some m, s'))
        × (in_isr s' ≡ false)
        × (messages h s' ≡ ms)
        × (capacity h s' ≡ capacity h s)
        × (size ≡ size)
  unfolding pos_queue_get
  get_message tmo s m ms task e =
      let (s', p, k, c, i) = receive_message h tmo s m ms e in
      (s', rw (task, p) refl, i ∙ task, k, c, refl)

  -- For messages of the size that the queue was created with.
  abbrev pub freertos_delivers : Delivers State put get
  freertos_delivers = record {
    IsReady = λ s. in_isr s ≡ false;
    messages = messages h;
    capacity = capacity h;
    msg_size = λ s. size;
    put_room = put_room;
    get_message = get_message;
  }
