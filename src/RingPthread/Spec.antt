-- ===== src/RingPthread/Spec.antt =====
-- `RingPthread::get` on the queue of the items that the ring holds.
use poski.Base.{
  ℕ, ◌≡◌, refl, ap, Option, none, some, List, [], ◌∷◌, arith, ◌==◌, if◌then◌else◌, Outcome, done,
  blocked, ◌>>=◌, Ensures, ne→==, ◌≢◌,
}
use poski.Ring
use poski.Ring.{Ring}
use poski.Ring.Fifo.{Fifo}
use poski.Ring.Invariant.{IsValid, Keeps}
use poski.Ring.Refine.{contents, front-pop}
use poski.Ring.Slots.{items}
use poski.RingPthread.{get}
use native.Mathlib.Decide.{ℕ_discrete}

-- The oldest item if there is one; on an empty queue a poll (timeout 0) reports that there is none,
-- and any other call waits.
pub get_fifo : Fifo → ℕ → Outcome (Option (List ℕ) × Fifo)
get_fifo (x ∷ q) tmo = done (some x, q)
get_fifo [] tmo = if tmo == 0 then done (none, []) else blocked

abbrev pub view : Outcome (Option (List ℕ) × Ring) → Outcome (Option (List ℕ) × Fifo)
view m = m >>= λ p. done (p.0, contents p.1)

abbrev pub Kept : Ring → Option (List ℕ) × Ring → Type 0
Kept r p = Keeps r p.1

contents-empty : (r : Ring) → Ring.size r ≡ 0 → contents r ≡ []
contents-empty r e = ap (λ n. items r.item_count r.item_size r.buffer r.read_index n) {y = 0} e

-- The three ways in which `get` ends.
pub get-poll : (r : Ring) → Ring.size r ≡ 0 → get r 0 ≡ done (none, r)
unfolding get
get-poll r e = ground arith

pub get-blocks : (r : Ring) (tmo : ℕ) → Ring.size r ≡ 0 → tmo ≢ 0 → get r tmo ≡ blocked
unfolding get
get-blocks r tmo e ne = ground arith

pub get-item :
    {r : Ring} (tmo : ℕ)
    → IsValid r
    → Ring.size r ≢ 0
    → (x : List ℕ) × (r' : Ring) × (get r tmo ≡ done (some x, r'))
      × Keeps r r'
      × (contents r ≡ x ∷ contents r')
unfolding get
get-item {r} tmo v ne =
    let (r', f, p, k, c) = front-pop v ne in
    (Ring.item_at r (Ring.offset r r.read_index), r', ground (arith, f, p), k, c)

-- On a valid ring `get` does what the queue of the items does, and keeps the object valid.
pub get_refines :
    {r : Ring} (tmo : ℕ)
    → IsValid r
    → (view (get r tmo) ≡ get_fifo (contents r) tmo) × Ensures (Kept r) (get r tmo)
unfolding get_fifo
get_refines {r} tmo v = elim (ℕ_discrete (Ring.size r) 0) [
  | yes e ↦ elim (ℕ_discrete tmo 0) [
    | yes p ↦
        rw (p, get-poll r e, contents-empty r e)
          (refl, record { valid = v; same_count = refl; same_size = refl })
    | no p ↦ rw (get-blocks r tmo e p, contents-empty r e, ne→== tmo 0 p) (refl, tt)
  ]
  | no ne ↦ let (x, r', g, k, c) = get-item tmo v ne in rw (g, c) (refl, k)
]
