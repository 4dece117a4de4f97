-- ===== src/RtThread/Queue.antt =====
-- targets/rt-thread/os_queue.c.
pub mod Laws
use poski.Base.{
  [], ◌∷◌, ◌++◌, ◌≡◌, ◌<◌, length, ℕ, Bool, true, false, Option, none, some, List, ℤ, ◌==ℤ◌,
  if◌then◌else◌, Outcome, done, ◌>>=◌,
}
use poski.Osal.ErrorCode.{PosError, ok, invalid_param, error}
use poski.RtThread.Sync.{Handle, handle_of, rt_eok, neg_etimeout}

-- The message queues of the kernel; a message has the size that the queue was created with.
pub record QueueApi : Type 1 where
  pub State : Type 0
  pub messages : ℕ → State → List (List ℕ)
  pub capacity : ℕ → State → ℕ
  pub create : ℕ → ℕ → State → Option ℕ × State
  pub recv : ℕ → ℕ → State → Outcome (ℤ × Option (List ℕ) × State)
  pub send : ℕ → List ℕ → State → ℤ × State
  pub delete : ℕ → State → State
  pub recv_message :
      (h tmo : ℕ) (s : State) (m : List ℕ) (ms : List (List ℕ))
      → messages h s ≡ m ∷ ms
      → (s' : State) × (recv h tmo s ≡ done (rt_eok, some m, s'))
        × (messages h s' ≡ ms)
        × (capacity h s' ≡ capacity h s)
  -- A poll of an empty queue fails, with -RT_ETIMEOUT.
  pub recv_empty :
      (h : ℕ) (s : State)
      → messages h s ≡ []
      → (s' : State) × (recv h 0 s ≡ done (neg_etimeout, none, s')) × (messages h s' ≡ [])
  pub send_room :
      (h : ℕ) (m : List ℕ) (s : State)
      → length (messages h s) < capacity h s
      → ((send h m s).0 ≡ rt_eok)
        × (messages h (send h m s).1 ≡ messages h s ++ m ∷ [])
        × (capacity h (send h m s).1 ≡ capacity h s)
  -- A send to a full queue fails.
  pub send_full :
      (h : ℕ) (m : List ℕ) (s : State)
      → length (messages h s) ≡ capacity h s
      → ((send h m s).0 ==ℤ rt_eok ≡ false) × (messages h (send h m s).1 ≡ messages h s)

module _ (A : QueueApi) where
  open A use {State, create, recv, send, delete}

  unfoldable pub pos_queue_init :
      Option Handle → ℕ → ℕ → State → Outcome (PosError × Option Handle × State)
  pos_queue_init none msg_size max_msgs s = done (invalid_param, none, s)
  pos_queue_init (some msgq) msg_size max_msgs s =
      let (handle, s') = create msg_size max_msgs s in
      handle_of handle >>= λ h. done (ok, some (record { handle = some h }), s')

  unfoldable pub pos_queue_get : Handle → ℕ → State → Outcome (PosError × Option (List ℕ) × State)
  pos_queue_get queue tmo s = handle_of queue.handle >>= λ h.
      recv h tmo s >>= λ p. done (if p.0 ==ℤ rt_eok then ok else error, p.1, p.2)

  unfoldable pub pos_queue_put : Option Handle → List ℕ → State → Outcome (PosError × State)
  pos_queue_put none item s = done (invalid_param, s)
  pos_queue_put (some queue) item s = handle_of queue.handle >>= λ h.
      let (ret, s') = send h item s in done (if ret ==ℤ rt_eok then ok else error, s')

  unfoldable pub pos_queue_deinit : Option Handle → State → PosError × Option Handle × State
  pos_queue_deinit none s = (ok, none, s)
  pos_queue_deinit (some queue) s = elim queue.handle [
    | none ↦ (ok, some queue, s)
    | some h ↦ (ok, some (record { handle = none }), delete h s)
  ]

unfoldable pub pos_queue_inited : Handle → Bool
pos_queue_inited queue = elim queue.handle [ none ↦ false | some _ ↦ true ]
