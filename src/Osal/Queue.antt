-- ===== src/Osal/Queue.antt =====
-- include/poski/osal/os_queue.h: what a message queue promises where a put finds room and a get finds a
-- message, and clients that make any sequence of such calls.
use poski.Base.{
  ℕ, ◌<◌, ◌≡◌, refl, sym, ap, ◌∙◌, Option, none, some, List, [], ◌∷◌, ◌++◌, length, arith, Outcome,
  done, ◌>>=◌,
}
use poski.Osal.ErrorCode.{PosError, ok}

-- The calls of one port on the state of a queue and of the kernel behind it. `IsReady` says that the
-- queue is initialised and the calls are made where they may be.
pub record Delivers (S : Type 0) (put : List ℕ → S → Outcome (PosError × S))
    (get : ℕ → S → Outcome (PosError × Option (List ℕ) × S)) : Type 1 where
  pub IsReady : S → Type 0
  pub messages : S → List (List ℕ)
  pub capacity : S → ℕ
  pub msg_size : S → ℕ
  -- A message of the right size that fits is sent behind the others.
  pub put_room :
      (m : List ℕ) (s : S)
      → IsReady s
      → length m ≡ msg_size s
      → length (messages s) < capacity s
      → (s' : S) × (put m s ≡ done (ok, s'))
        × IsReady s'
        × (messages s' ≡ messages s ++ m ∷ [])
        × (capacity s' ≡ capacity s)
        × (msg_size s' ≡ msg_size s)
  -- The oldest message is received.
  pub get_message :
      (tmo : ℕ) (s : S) (m : List ℕ) (ms : List (List ℕ))
      → IsReady s
      → messages s ≡ m ∷ ms
      → (s' : S) × (get tmo s ≡ done (ok, some m, s'))
        × IsReady s'
        × (messages s' ≡ ms)
        × (capacity s' ≡ capacity s)
        × (msg_size s' ≡ msg_size s)

pub data Op : Type 0 where
  puts : (m : List ℕ) → Op
  gets : (tmo : ℕ) → Op

-- A put finds room for a message of the right size, and a get finds a message, in a queue of at most
-- `cap` messages of `size` bytes that holds those of the list.
abbrev pub Fits : ℕ → ℕ → List (List ℕ) → List Op → Type 0
Fits cap size q [] = Unit
Fits cap size q (puts m ∷ ops) =
    (length m ≡ size) × (length q < cap) × Fits cap size (q ++ m ∷ []) ops
Fits cap size [] (gets tmo ∷ ops) = ⊥
Fits cap size (m ∷ q) (gets tmo ∷ ops) = Fits cap size q ops

-- The messages that a first-in, first-out queue returns, `none` for a put, and those that are left.
abbrev pub answers : List (List ℕ) → List Op → List (Option (List ℕ))
answers q [] = []
answers q (puts m ∷ ops) = none ∷ answers (q ++ m ∷ []) ops
answers [] (gets tmo ∷ ops) = none ∷ answers [] ops
answers (m ∷ q) (gets tmo ∷ ops) = some m ∷ answers q ops

abbrev pub left : List (List ℕ) → List Op → List (List ℕ)
left q [] = q
left q (puts m ∷ ops) = left (q ++ m ∷ []) ops
left [] (gets tmo ∷ ops) = left [] ops
left (m ∷ q) (gets tmo ∷ ops) = left q ops

-- All calls returned POS_OK.
abbrev pub all_ok : List (Option (List ℕ)) → List (PosError × Option (List ℕ))
all_ok [] = []
all_ok (x ∷ xs) = (ok, x) ∷ all_ok xs

module _ {S : Type 0} (put : List ℕ → S → Outcome (PosError × S))
    (get : ℕ → S → Outcome (PosError × Option (List ℕ) × S)) where
  -- What a sequence of calls returns: the error, and the message of a get.
  unfoldable pub run : List Op → S → Outcome (List (PosError × Option (List ℕ)) × S)
  run [] s = done ([], s)
  run (puts m ∷ ops) s = put m s >>= λ p. run ops p.1 >>= λ q. done ((p.0, none) ∷ q.0, q.1)
  run (gets tmo ∷ ops) s = get tmo s >>= λ p. run ops p.2 >>= λ q. done ((p.0, p.1) ∷ q.0, q.1)

  -- A port that keeps the contract answers any calls that fit with POS_OK and as the first-in,
  -- first-out queue of its messages.
  pub run-answers :
      (D : Delivers S put get) (ops : List Op) (q : List (List ℕ)) (cap size : ℕ) (s : S)
      → D.IsReady s
      → D.messages s ≡ q
      → D.capacity s ≡ cap
      → D.msg_size s ≡ size
      → Fits cap size q ops
      → (s' : S) × (run ops s ≡ done (all_ok (answers q ops), s'))
        × D.IsReady s'
        × (D.messages s' ≡ left q ops)
  unfolding run
  run-answers D [] q cap size s ready e c z fits = (s, refl, ready, e)
  run-answers D (puts m ∷ ops) q cap size s ready e c z (sized, room, fits) =
      let (s1, p, r1, e1, c1, z1) =
        D.put_room m s ready (sized ∙ sym z) (omega (arith, ap length e, c)) in
      let (s2, p2, r2, e2) =
        run-answers D ops (q ++ m ∷ []) cap size s1 r1 (e1 ∙ ap (λ l. l ++ m ∷ []) e) (c1 ∙ c)
          (z1 ∙ z) fits in
      (s2, rw (p, p2) refl, r2, e2)
  run-answers D (gets tmo ∷ ops) [] cap size s ready e c z fits = absurd fits
  run-answers D (gets tmo ∷ ops) (m ∷ q) cap size s ready e c z fits =
      let (s1, p, r1, e1, c1, z1) = D.get_message tmo s m q ready e in
      let (s2, p2, r2, e2) = run-answers D ops q cap size s1 r1 e1 (c1 ∙ c) (z1 ∙ z) fits in
      (s2, rw (p, p2) refl, r2, e2)

-- What a run returns, without the state.
abbrev pub observed :
    {S : Type 0}
    → Outcome (List (PosError × Option (List ℕ)) × S)
    → Outcome (List (PosError × Option (List ℕ)))
observed m = m >>= λ p. done p.0

-- Two ports that keep the contract return the same for any calls that fit, on queues with the same
-- messages and dimensions.
pub run-same :
    {S T : Type 0} (put : List ℕ → S → Outcome (PosError × S))
    (get : ℕ → S → Outcome (PosError × Option (List ℕ) × S))
    (put' : List ℕ → T → Outcome (PosError × T))
    (get' : ℕ → T → Outcome (PosError × Option (List ℕ) × T)) (D : Delivers S put get)
    (E : Delivers T put' get') (ops : List Op) (s : S) (t : T)
    → D.IsReady s
    → E.IsReady t
    → D.messages s ≡ E.messages t
    → D.capacity s ≡ E.capacity t
    → D.msg_size s ≡ E.msg_size t
    → Fits (E.capacity t) (E.msg_size t) (E.messages t) ops
    → observed (run put get ops s) ≡ observed (run put' get' ops t)
run-same put get put' get' D E ops s t rs rt em ec ez fits =
    let (s1, p, r1, k1) =
      run-answers put get D ops (E.messages t) (E.capacity t) (E.msg_size t) s rs em ec ez fits in
    let (t1, q, r2, k2) =
      run-answers put' get' E ops (E.messages t) (E.capacity t) (E.msg_size t) t rt refl refl refl
        fits in
    rw (p, q) refl
