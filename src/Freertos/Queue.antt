-- ===== src/Freertos/Queue.antt =====
-- targets/freertos/os_queue.c, and the queue functions of os_port.h.
pub mod Laws
pub mod Contract
use poski.Base.{
  ℕ, ◌≡◌, ◌<◌, Bool, true, false, Option, none, some, List, [], ◌∷◌, ◌++◌, length, ◌==◌, ◌||◌,
  if◌then◌else◌, Outcome, done, assert_failed, blocked, ◌>>=◌, ◌>>◌, assert,
}
use poski.Osal.ErrorCode.{PosError, ok}

-- pdPASS and errQUEUE_EMPTY of projdefs.h
abbrev pub pd_pass : ℕ
pd_pass = 1

abbrev pub err_queue_empty : ℕ
err_queue_empty = 0

-- queue.h, on the state of the kernel: a receive returns a number and the message, if it copied one.
-- A call with portMAX_DELAY waits for as long as it takes.
pub record QueueApi : Type 1 where
  pub State : Type 0
  pub in_isr : State → Bool
  pub messages : ℕ → State → List (List ℕ)
  pub capacity : ℕ → State → ℕ
  pub create : ℕ → ℕ → State → Option ℕ × State
  pub receive : ℕ → ℕ → State → Outcome (ℕ × Option (List ℕ) × State)
  pub receive_from_isr : ℕ → State → ℕ × Option (List ℕ) × Bool × State
  pub send_to_back : ℕ → List ℕ → State → Outcome (ℕ × State)
  pub send_to_back_from_isr : ℕ → List ℕ → State → ℕ × Bool × State
  pub delete : ℕ → State → State
  pub yield_from_isr : Bool → State → State
  pub receive_message :
      (h tmo : ℕ) (s : State) (m : List ℕ) (ms : List (List ℕ))
      → messages h s ≡ m ∷ ms
      → (s' : State) × (receive h tmo s ≡ done (pd_pass, some m, s'))
        × (messages h s' ≡ ms)
        × (capacity h s' ≡ capacity h s)
        × (in_isr s' ≡ in_isr s)
  -- A poll of an empty queue.
  pub receive_empty :
      (h : ℕ) (s : State)
      → messages h s ≡ []
      → (s' : State) × (receive h 0 s ≡ done (err_queue_empty, none, s')) × (messages h s' ≡ [])
  pub send_room :
      (h : ℕ) (m : List ℕ) (s : State)
      → length (messages h s) < capacity h s
      → (s' : State) × (send_to_back h m s ≡ done (pd_pass, s'))
        × (messages h s' ≡ messages h s ++ m ∷ [])
        × (capacity h s' ≡ capacity h s)
        × (in_isr s' ≡ in_isr s)
  pub send_full :
      (h : ℕ) (m : List ℕ) (s : State)
      → length (messages h s) ≡ capacity h s
      → send_to_back h m s ≡ blocked
  pub send_from_isr_full :
      (h : ℕ) (m : List ℕ) (s : State)
      → length (messages h s) ≡ capacity h s
      → (send_to_back_from_isr h m s).0 ≡ 0

-- `struct pos_queue`; the kernel takes a handle that is not null, which its own assertions check.
pub record Queue : Type 0 where
  pub handle : Option ℕ

abbrev pub kernel_handle : Option ℕ → Outcome ℕ
kernel_handle none = assert_failed
kernel_handle (some h) = done h

module _ (A : QueueApi) where
  open A use {
    State, in_isr, create, receive, receive_from_isr, send_to_back, send_to_back_from_isr, delete,
    yield_from_isr,
  }

  unfoldable pub pos_queue_init : ℕ → ℕ → State → PosError × Queue × State
  pos_queue_init msg_size max_msgs s =
      let (handle, s') = create max_msgs msg_size s in (ok, record { handle = handle }, s')

  unfoldable pub pos_queue_inited : Queue → Bool
  pos_queue_inited queue = elim queue.handle [ none ↦ false | some _ ↦ true ]

  -- With the message that it copies to the caller.
  unfoldable pub pos_queue_get : Queue → ℕ → State → Outcome (PosError × Option (List ℕ) × State)
  pos_queue_get queue tmo s = kernel_handle queue.handle >>= λ h.
      (if in_isr s
        then (assert (tmo == 0)
            >> let (ret, item, woken, s') = receive_from_isr h s in
              done (ret, item, yield_from_isr woken s'))
        else receive h tmo s)
      >>= λ p. assert (p.0 == pd_pass || p.0 == err_queue_empty) >> done (ok, p.1, p.2)

  unfoldable pub pos_queue_put : Queue → List ℕ → State → Outcome (PosError × State)
  pos_queue_put queue item s = kernel_handle queue.handle >>= λ h.
      (if in_isr s
        then (let (ret, woken, s') = send_to_back_from_isr h item s in
            done (ret, yield_from_isr woken s'))
        else send_to_back h item s)
      >>= λ p. assert (p.0 == pd_pass) >> done (ok, p.1)

  unfoldable pub pos_queue_deinit : Option Queue → State → PosError × Option Queue × State
  pos_queue_deinit none s = (ok, none, s)
  pos_queue_deinit (some queue) s = elim queue.handle [
    | none ↦ (ok, some queue, s)
    | some h ↦ (ok, some (record { handle = none }), delete h s)
  ]
