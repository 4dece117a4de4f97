-- ===== src/Freertos/Queue/Laws.antt =====
-- The queue of targets/freertos/os_queue.c: clients that put and get several messages, a full and an
-- empty queue, and a creation that fails.
use poski.Base.{
  ℕ, zero, suc, ◌+◌, ◌≤◌, ◌≡◌, refl, sym, ap, ◌∙◌, false, Bool-cases, inl, inr, if◌then◌else◌,
  Option, none, some, List, [], ◌∷◌, ◌++◌, map, append-nil, append_assoc, length, length-append,
  arith, Outcome, done, assert_failed, blocked, ◌>>=◌,
}
use poski.Osal.ErrorCode.{ok}
use poski.Freertos.Queue.{
  QueueApi, Queue, pos_queue_init, pos_queue_inited, pos_queue_get, pos_queue_put,
}

module _ (A : QueueApi) where
  open A use {
    State, in_isr, messages, capacity, create, receive_message, receive_empty, send_room, send_full,
    send_from_isr_full,
  }

  abbrev queue_at : ℕ → Queue
  queue_at h = record { handle = some h }

  -- A poll of an empty queue returns POS_OK, as if there were a message.
  pub get_empty-ok :
      (h : ℕ) (s : State)
      → in_isr s ≡ false
      → messages h s ≡ []
      → (s' : State) × (pos_queue_get A (queue_at h) 0 s ≡ done (ok, none, s'))
  unfolding pos_queue_get
  get_empty-ok h s task e = let (s', r, k) = receive_empty h s e in (s', rw (task, r) refl)

  -- A queue that the kernel could not create is initialised with POS_OK; a get or put of it aborts.
  pub init_failed-ok :
      (msg_size max_msgs tmo : ℕ) (m : List ℕ) (s : State)
      → (create max_msgs msg_size s).0 ≡ none
      → let (e, queue, s') = pos_queue_init A msg_size max_msgs s in
        (e ≡ ok)
        × (pos_queue_inited A queue ≡ false)
        × (pos_queue_get A queue tmo s' ≡ assert_failed)
        × (pos_queue_put A queue m s' ≡ assert_failed)
  unfolding pos_queue_init pos_queue_inited pos_queue_get pos_queue_put
  init_failed-ok msg_size max_msgs tmo m s e = (refl, rw e refl, rw e refl, rw e refl)

  -- On a full queue, a put waits in a task, and aborts in an interrupt routine.
  pub put-full :
      (h : ℕ) (m : List ℕ) (s : State)
      → length (messages h s) ≡ capacity h s
      → pos_queue_put A (queue_at h) m s ≡ (if in_isr s then assert_failed else blocked)
  unfolding pos_queue_put
  put-full h m s full = elim (Bool-cases (in_isr s)) [
    | inl e ↦ rw (e, send_from_isr_full h m s full) refl
    | inr e ↦ rw (e, send_full h m s full) refl
  ]

  pub send_all : ℕ → List (List ℕ) → State → Outcome State
  send_all h [] s = done s
  send_all h (m ∷ ms) s = pos_queue_put A (queue_at h) m s >>= λ p. send_all h ms p.1

  pub receive_all : ℕ → ℕ → ℕ → State → Outcome (List (Option (List ℕ)) × State)
  receive_all h tmo zero s = done ([], s)
  receive_all h tmo (suc n) s = pos_queue_get A (queue_at h) tmo s >>= λ p.
      receive_all h tmo n p.2 >>= λ r. done (p.1 ∷ r.0, r.1)

  send_all-messages :
      (h : ℕ) (ms : List (List ℕ)) (s : State)
      → in_isr s ≡ false
      → length (messages h s) + length ms ≤ capacity h s
      → (s' : State) × (send_all h ms s ≡ done s')
        × (messages h s' ≡ messages h s ++ ms)
        × (in_isr s' ≡ false)
  unfolding send_all pos_queue_put
  send_all-messages h [] s task fits = (s, refl, sym (append-nil (messages h s)), task)
  send_all-messages h (m ∷ ms) s task fits =
      let (s1, p, k, c, i) = send_room h m s (omega arith) in
      let (s2, q, k', t) =
        send_all-messages h ms s1 (i ∙ task)
          (omega (arith, ap length k, length-append {0} (messages h s) (m ∷ []))) in
      (s2, rw (task, p) q, k' ∙ ap (λ l. l ++ ms) k ∙ append_assoc (messages h s) (m ∷ []) ms, t)

  receive_all-messages :
      (h tmo : ℕ) (ms : List (List ℕ)) (s : State)
      → in_isr s ≡ false
      → messages h s ≡ ms
      → (s' : State) × (receive_all h tmo (length ms) s ≡ done (map some ms, s'))
        × (messages h s' ≡ [])
  unfolding receive_all pos_queue_get
  receive_all-messages h tmo [] s task e = (s, refl, e)
  receive_all-messages h tmo (m ∷ ms) s task e =
      let (s1, r, k, c, i) = receive_message h tmo s m ms e in
      let (s2, g, k') = receive_all-messages h tmo ms s1 (i ∙ task) k in
      (s2, rw (task, r, g) refl, k')

  -- In a task, messages that fit an empty queue are all put, and then got back in the same order.
  pub receive_all-send_all :
      (h tmo : ℕ) (ms : List (List ℕ)) (s : State)
      → in_isr s ≡ false
      → messages h s ≡ []
      → length ms ≤ capacity h s
      → (s' : State) × ((send_all h ms s >>= λ u. receive_all h tmo (length ms) u)
          ≡ done (map some ms, s'))
        × (messages h s' ≡ [])
  receive_all-send_all h tmo ms s task e fits =
      let (s1, p, k, t) = send_all-messages h ms s task (omega (arith, ap length e)) in
      let (s2, g, k') = receive_all-messages h tmo ms s1 t (k ∙ ap (λ l. l ++ ms) e) in
      (s2, rw p g, k')
