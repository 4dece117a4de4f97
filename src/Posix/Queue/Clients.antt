-- ===== src/Posix/Queue/Clients.antt =====
-- Clients of a message queue that put and get several messages.
use poski.Base.{
  zero, map, ℕ, suc, ◌+◌, ◌≤◌, ◌≡◌, refl, sym, subst, Option, some, List, [], ◌∷◌, ◌++◌,
  append_assoc, append-nil, arith, length, length-append, Outcome, done, ◌>>=◌,
}
use poski.Posix.Queue.{Queue, pos_queue_put, pos_queue_get}
use poski.Posix.Queue.Laws.{Holds, put-Holds, get-Holds}

-- A client that puts some messages, and one that gets so many.
pub put_all : Queue → List (List ℕ) → Outcome Queue
put_all msgq [] = done msgq
put_all msgq (m ∷ ms) = pos_queue_put msgq m >>= λ p. put_all p.1 ms

pub get_all : ℕ → Queue → ℕ → Outcome (List (Option (List ℕ)) × Queue)
get_all tmo msgq zero = done ([], msgq)
get_all tmo msgq (suc n) =
    pos_queue_get msgq tmo >>= λ p. get_all tmo p.1 n >>= λ r. done (p.2 ∷ r.0, r.1)

abbrev pub Sized : ℕ → List (List ℕ) → Type 0
Sized n [] = Unit
Sized n (m ∷ ms) = (length m ≡ n) × Sized n ms

put_all-Holds :
    {size cap : ℕ} (old ms : List (List ℕ)) {msgq : Queue}
    → Holds msgq size cap old
    → Sized size ms
    → length old + length ms ≤ cap
    → (q' : Queue) × (put_all msgq ms ≡ done q') × Holds q' size cap (old ++ ms)
unfolding put_all
put_all-Holds {size} {cap} old [] {msgq} h s fits =
    (msgq, refl, subst (Holds msgq size cap) (sym (append-nil old)) h)
put_all-Holds {size} {cap} old (m ∷ ms) {msgq} h (s, rest) fits =
    let (q1, p1, h1) = put-Holds m h s (omega arith) in
    let (q2, p2, h2) =
      put_all-Holds (old ++ m ∷ []) ms h1 rest (omega (arith, length-append {0} old (m ∷ []))) in
    (q2, rw p1 p2, subst (Holds q2 size cap) (append_assoc old (m ∷ []) ms) h2)

get_all-Holds :
    {size cap : ℕ} (tmo : ℕ) (ms : List (List ℕ)) {msgq : Queue}
    → Holds msgq size cap ms
    → (q' : Queue) × (get_all tmo msgq (length ms) ≡ done (map some ms, q')) × Holds q' size cap []
unfolding get_all
get_all-Holds tmo [] {msgq} h = (msgq, refl, h)
get_all-Holds tmo (m ∷ ms) h =
    let (q1, g1, h1) = get-Holds m tmo h in
    let (q2, g2, h2) = get_all-Holds tmo ms h1 in (q2, rw (g1, g2) refl, h2)

-- Messages that fit an empty queue are all put, and then got back in the same order, each whole, with
-- any timeout; the queue is empty again.
pub get_all-put_all :
    {msgq : Queue} {size cap : ℕ} (tmo : ℕ) (ms : List (List ℕ))
    → Holds msgq size cap []
    → Sized size ms
    → length ms ≤ cap
    → (q' : Queue) × ((put_all msgq ms >>= λ q. get_all tmo q (length ms)) ≡ done (map some ms, q'))
      × Holds q' size cap []
get_all-put_all tmo ms h s fits =
    let (q1, p, h1) = put_all-Holds [] ms h s (omega arith) in
    let (q2, g, h2) = get_all-Holds tmo ms h1 in (q2, rw p g, h2)
