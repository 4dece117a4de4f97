-- ===== src/Zephyr/Queue/Laws.antt =====
-- Puts to a queue of targets/zephyr/os_queue.c, a full one and an empty one too.
use poski.Base.{
  ℕ, suc, ◌+◌, ◌<◌, ◌≡◌, refl, sym, ap, ◌∙◌, none, List, [], ◌∷◌, ◌++◌, length, length-append, take,
  zero, append-nil, append_assoc, arith, done,
}
use poski.Osal.ErrorCode.{PosError, ok, error}
use poski.Zephyr.Utils.{kernel_timeout, result_of}
use poski.Zephyr.Queue.{QueueApi, Queue, pos_queue_get, pos_queue_put}

module _ (A : QueueApi) where
  open A use {
    Heap, messages, capacity, malloc, get_message, get_empty, put_room, put_full, num_used_lem,
    enomsg_lem, init_lem,
  }

  -- On a full queue a put returns POS_ERROR; it changes nothing and calls nothing.
  pub put_full-error :
      (queue : Queue A) (m : List ℕ)
      → length (messages queue.msgq) ≡ capacity queue.msgq
      → pos_queue_put A queue m ≡ (error, none, queue)
  unfolding pos_queue_put
  put_full-error queue m full = rw (put_full m queue.msgq full, enomsg_lem.0, enomsg_lem.1) refl

  -- So does a poll of an empty queue.
  pub get_empty-error :
      (queue : Queue A)
      → messages queue.msgq ≡ []
      → pos_queue_get A queue 0 ≡ done (error, none, queue)
  unfolding pos_queue_get kernel_timeout result_of
  get_empty-error queue e = rw (get_empty queue.msgq e, enomsg_lem.0, enomsg_lem.1) refl

  -- The messages that are put, with the calls of the callback.
  pub put_each : Queue A → List (List ℕ) → List PosError × Queue A
  put_each queue [] = ([], queue)
  put_each queue (m ∷ ms) =
      let (e, call, q) = pos_queue_put A queue m in let (es, q') = put_each q ms in (e ∷ es, q')

  -- What so many puts return where so many messages fit.
  abbrev pub verdicts : ℕ → List (List ℕ) → List PosError
  verdicts room [] = []
  verdicts zero (m ∷ ms) = error ∷ verdicts zero ms
  verdicts (suc room) (m ∷ ms) = ok ∷ verdicts room ms

  put-room :
      (queue : Queue A) (m : List ℕ)
      → length (messages queue.msgq) < capacity queue.msgq
      → let (e, call, q) = pos_queue_put A queue m in
        (e ≡ ok)
        × (messages q.msgq ≡ messages queue.msgq ++ m ∷ [])
        × (capacity q.msgq ≡ capacity queue.msgq)
  unfolding pos_queue_put
  put-room queue m room = let (p, k, c) = put_room m queue.msgq room in (rw p refl, rw p k, rw p c)

  -- Of any messages that are put one after the other, the queue takes as many of the first as fit, in
  -- order, with POS_OK, and refuses the others with POS_ERROR.
  pub put_each-take :
      (room : ℕ) (ms : List (List ℕ)) (queue : Queue A)
      → length (messages queue.msgq) + room ≡ capacity queue.msgq
      → ((put_each queue ms).0 ≡ verdicts room ms)
        × (messages (put_each queue ms).1.msgq ≡ messages queue.msgq ++ take room ms)
  unfolding put_each
  put_each-take zero [] queue fits = (refl, sym (append-nil (messages queue.msgq)))
  put_each-take (suc room) [] queue fits = (refl, sym (append-nil (messages queue.msgq)))
  put_each-take zero (m ∷ ms) queue full =
      let p = put_full-error queue m (omega arith) in
      let (v, k) = put_each-take zero ms queue full in (rw p (ap (λ l. error ∷ l) v), rw p k)
  put_each-take (suc room) (m ∷ ms) queue fits =
      let (e, k, c) = put-room queue m (omega arith) in
      let (v, l) =
        put_each-take room ms (pos_queue_put A queue m).2
          (omega (arith, ap length k, length-append {0} (messages queue.msgq) (m ∷ []), c)) in
      (
        rw (e, v) refl,
        l
            ∙ ap (λ x. x ++ take room ms) k
            ∙ append_assoc (messages queue.msgq) (m ∷ []) (take room ms),
      )
