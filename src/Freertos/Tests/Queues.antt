-- ===== src/Freertos/Tests/Queues.antt =====
-- A kernel with one queue.
use poski.Base.{
  ℕ, ◌<◌, ◌≡◌, refl, true, false, Option, none, some, List, [], ◌∷◌, ◌++◌, length, arith, ltb, ◌==◌,
  if◌then◌else◌, Outcome, done, blocked,
}
use poski.Osal.ErrorCode.{ok}
use poski.Freertos.Queue.{QueueApi, pos_queue_get}
use poski.Freertos.Queue.Laws.{get_empty-ok}

pub record Kernel : Type 0 where
  pub items : List (List ℕ)
  pub room : ℕ

abbrev pub receive : ℕ → Kernel → Outcome (ℕ × Option (List ℕ) × Kernel)
receive tmo s = elim s.items [
  | [] ↦ if tmo == 0 then done (0, none, s) else blocked
  | m ∷ ms ↦ done (1, some m, record s { items = ms })
]

abbrev pub send : List ℕ → Kernel → ℕ × Kernel
send m s =
    if ltb (length s.items) s.room then (1, record s { items = s.items ++ m ∷ [] }) else (0, s)

pub receive_message :
    (tmo : ℕ) (s : Kernel) (m : List ℕ) (ms : List (List ℕ))
    → s.items ≡ m ∷ ms
    → (s' : Kernel) × (receive tmo s ≡ done (1, some m, s'))
      × (s'.items ≡ ms)
      × (s'.room ≡ s.room)
      × (false ≡ false)
receive_message tmo s m ms e = (record s { items = ms }, rw e refl, refl, refl, refl)

pub receive_empty :
    (s : Kernel)
    → s.items ≡ []
    → (s' : Kernel) × (receive 0 s ≡ done (0, none, s')) × (s'.items ≡ [])
receive_empty s e = (s, rw e refl, e)

pub ltb-lt : (m n : ℕ) → m < n → ltb m n ≡ true
ltb-lt m n h = ground arith

pub ltb-same : (m n : ℕ) → m ≡ n → ltb m n ≡ false
ltb-same m n h = ground arith

pub send_room :
    (m : List ℕ) (s : Kernel)
    → length s.items < s.room
    → (s' : Kernel) × (◌≡◌ {A = Outcome (ℕ × Kernel)} (done (send m s)) (done (1, s')))
      × (s'.items ≡ s.items ++ m ∷ [])
      × (s'.room ≡ s.room)
      × (false ≡ false)
send_room m s h = (record s { items = s.items ++ m ∷ [] }, rw (ltb-lt _ _ h) refl, refl, refl, refl)

abbrev pub send_or_wait : List ℕ → Kernel → Outcome (ℕ × Kernel)
send_or_wait m s = if length s.items == s.room then blocked else done (send m s)

pub send_or_wait_room :
    (m : List ℕ) (s : Kernel)
    → length s.items < s.room
    → (s' : Kernel) × (send_or_wait m s ≡ done (1, s'))
      × (s'.items ≡ s.items ++ m ∷ [])
      × (s'.room ≡ s.room)
      × (false ≡ false)
send_or_wait_room m s h =
    let (s', e, k, c, i) = send_room m s h in
    (s', rw (differs (length s.items) s.room h) e, k, c, i)
  where
    differs : (m n : ℕ) → m < n → (m == n) ≡ false
    differs m n lt = ground arith

pub send_full : (m : List ℕ) (s : Kernel) → length s.items ≡ s.room → send_or_wait m s ≡ blocked
send_full m s h = rw (same (length s.items) s.room h) refl
  where
    same : (m n : ℕ) → m ≡ n → (m == n) ≡ true
    same m n e = ground arith

abbrev pub kernel : QueueApi
kernel = record {
  State = Kernel;
  in_isr = λ s. false;
  messages = λ h s. s.items;
  capacity = λ h s. s.room;
  create = λ n size s. (some 1, record { items = []; room = n });
  receive = λ h tmo s. receive tmo s;
  receive_from_isr = λ h s. (0, none, false, s);
  send_to_back = λ h m s. send_or_wait m s;
  send_to_back_from_isr = λ h m s. ((send m s).0, false, (send m s).1);
  delete = λ h s. s;
  yield_from_isr = λ woken s. s;
  receive_message = λ h tmo s m ms e. receive_message tmo s m ms e;
  receive_empty = λ h s e. receive_empty s e;
  send_room = λ h m s e. send_or_wait_room m s e;
  send_full = λ h m s e. send_full m s e;
  send_from_isr_full = λ h m s e. rw (ltb-same (length s.items) s.room e) refl;
}

abbrev empty : Kernel
empty = record { items = []; room = 4 }

get_empty-ok_example :
    (s' : Kernel) × (pos_queue_get kernel (record { handle = some 1 }) 0 empty
      ≡ done (ok, none, s'))
get_empty-ok_example = get_empty-ok kernel 1 empty refl refl
