-- ===== src/Posix/Queue/Contract.antt =====
-- The queue of targets/posix/os_queue.cc against the contract Osal.Queue.
use poski.Base.{
  ℕ, ◌<◌, ◌≡◌, refl, subst, Option, none, some, List, [], ◌∷◌, ◌++◌, length, Outcome, done, ◌>>=◌,
}
use poski.Ring.Refine.{contents}
use poski.Osal.ErrorCode.{PosError, ok}
use poski.Osal.Queue.{Delivers}
use poski.Posix.Queue.{Queue, pos_queue_put, pos_queue_get}
use poski.Posix.Queue.Laws.{Holds, put-Holds, get-Holds}

-- The calls without what they do beside: the call of the signal callback.
abbrev pub put : List ℕ → Queue → Outcome (PosError × Queue)
put m msgq = pos_queue_put msgq m >>= λ p. done (p.0, p.1)

abbrev pub get : ℕ → Queue → Outcome (PosError × Option (List ℕ) × Queue)
get tmo msgq = pos_queue_get msgq tmo >>= λ p. done (p.0, p.2, p.1)

abbrev pub messages : Queue → List (List ℕ)
messages msgq = elim msgq.q [ none ↦ [] | some r ↦ contents r ]

abbrev pub capacity : Queue → ℕ
capacity msgq = elim msgq.q [ none ↦ 0 | some r ↦ r.item_count ]

abbrev pub msg_size : Queue → ℕ
msg_size msgq = elim msgq.q [ none ↦ 0 | some r ↦ r.item_size ]

abbrev pub IsReady : Queue → Type 0
IsReady msgq = Holds msgq (msg_size msgq) (capacity msgq) (messages msgq)

-- What the queue that holds some messages shows of them.
pub Holds-view :
    {msgq : Queue} {size cap : ℕ} {ms : List (List ℕ)}
    → Holds msgq size cap ms
    → (messages msgq ≡ ms) × (capacity msgq ≡ cap) × (msg_size msgq ≡ size)
Holds-view h = (rw h.at h.held, rw h.at h.max_msgs, rw h.at h.msg_size)

pub Holds-IsReady :
    {msgq : Queue} {size cap : ℕ} {ms : List (List ℕ)} → Holds msgq size cap ms → IsReady msgq
Holds-IsReady h = record {
  ring = h.ring;
  at = h.at;
  valid = h.valid;
  msg_size = rw h.at refl;
  max_msgs = rw h.at refl;
  held = rw h.at refl;
}

pub put_room :
    (m : List ℕ) (s : Queue)
    → IsReady s
    → length m ≡ msg_size s
    → length (messages s) < capacity s
    → (s' : Queue) × (put m s ≡ done (ok, s'))
      × IsReady s'
      × (messages s' ≡ messages s ++ m ∷ [])
      × (capacity s' ≡ capacity s)
      × (msg_size s' ≡ msg_size s)
put_room m s ready sized room =
    let (s', p, h) = put-Holds m ready sized room in
    (s', rw p refl, Holds-IsReady h, (Holds-view h).0, (Holds-view h).1, (Holds-view h).2)

pub get_message :
    (tmo : ℕ) (s : Queue) (m : List ℕ) (ms : List (List ℕ))
    → IsReady s
    → messages s ≡ m ∷ ms
    → (s' : Queue) × (get tmo s ≡ done (ok, some m, s'))
      × IsReady s'
      × (messages s' ≡ ms)
      × (capacity s' ≡ capacity s)
      × (msg_size s' ≡ msg_size s)
get_message tmo s m ms ready e =
    let (s', p, h) = get-Holds m tmo (subst (Holds s (msg_size s) (capacity s)) e ready) in
    (s', rw p refl, Holds-IsReady h, (Holds-view h).0, (Holds-view h).1, (Holds-view h).2)

abbrev pub posix_delivers : Delivers Queue put get
posix_delivers = record {
  IsReady = IsReady;
  messages = messages;
  capacity = capacity;
  msg_size = msg_size;
  put_room = put_room;
  get_message = get_message;
}
