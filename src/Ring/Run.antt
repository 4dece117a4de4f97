-- ===== src/Ring/Run.antt =====
-- Clients of OsRing that make any sequence of calls, on the ring and on the bounded queue.
use mathlib.Core.Option
use poski.Base.{
  ℕ, ◌≡◌, refl, sym, ap, subst, ◌∙◌, List, [], ◌∷◌, ◌==◌, Outcome, done, assert_failed, undefined,
  blocked, ◌>>=◌, Ensures,
}
use poski.Ring.Ops.{
  Op, push, pop, peek, count, is_empty, is_full, Reply, nothing, item, number, flag, SizedOp, Sized,
}
use poski.Ring.Fifo
use poski.Ring.{Ring, size, empty, full, push_back, pop_front, front, item_at}
use poski.Ring.Invariant.{IsValid, Keeps}
use poski.Ring.Refine.{
  contents, length-contents, empty_lem, full_lem, push_back_refines, pop_front_refines,
  front_refines,
}

-- One call, with what the client sees of it; `peek` reads the item through the pointer.
pub step : Ring → Op → Outcome (Ring × Reply)
step r (push x) = push_back r x >>= λ r'. done (r', nothing)
step r pop = pop_front r >>= λ r'. done (r', nothing)
step r peek = done (r, item (Option.map (item_at r) (front r)))
step r count = done (r, number (size r))
step r is_empty = done (r, flag (empty r))
step r is_full = done (r, flag (full r))

unfoldable pub run : Ring → List Op → Outcome (List Reply)
unfolding step
run r [] = done []
run r (op ∷ ops) = step r op >>= λ p. run p.0 ops >>= λ out. done (p.1 ∷ out)

abbrev view : Outcome (Ring × Reply) → Outcome (List (List ℕ) × Reply)
view m = m >>= λ p. done (contents p.0, p.1)

abbrev Kept : Ring → Ring × Reply → Type 0
Kept r p = Keeps r p.0

-- The reply to a call that returns none but the new state.
abbrev no_reply {ℓ} : {S : Type ℓ} → Outcome S → Outcome (S × Reply)
no_reply m = m >>= λ s. done (s, nothing)

Keeps-refl : {r : Ring} → IsValid r → Keeps r r
Keeps-refl v = record { valid = v; same_count = refl; same_size = refl }

-- A call that only updates the ring.
no_reply_refines :
    (r : Ring) (m : Outcome Ring) (q : Outcome (List (List ℕ)))
    → ((m >>= λ r'. done (contents r')) ≡ q) × Ensures (Keeps r) m
    → (view (no_reply m) ≡ no_reply q) × Ensures (Kept r) (no_reply m)
no_reply_refines r (done r') q (e, k) = (ap no_reply e, k)
no_reply_refines r assert_failed q (e, k) = (ap no_reply e, k)
no_reply_refines r undefined q (e, k) = (ap no_reply e, k)
no_reply_refines r blocked q (e, k) = (ap no_reply e, k)

pub step_refines :
    {r : Ring} (op : Op)
    → IsValid r
    → SizedOp r.item_size op
    → (view (step r op) ≡ Fifo.step r.item_count (contents r) op) × Ensures (Kept r) (step r op)
unfolding step Fifo.step
step_refines {r} (push x) v s = no_reply_refines r _ _ (push_back_refines v x s)
step_refines {r} pop v s = no_reply_refines r _ _ (pop_front_refines v)
step_refines {r} peek v s = (ap (λ o. done (contents r, item o)) (front_refines v), Keeps-refl v)
step_refines {r} count v s =
    (ap (λ n. done (contents r, number n)) (sym (length-contents r)), Keeps-refl v)
step_refines {r} is_empty v s = (
  ap (λ b. done (contents r, flag b)) (empty_lem v ∙ ap (λ n. n == 0) (sym (length-contents r))),
  Keeps-refl v,
)
step_refines {r} is_full v s = (
  ap (λ b. done (contents r, flag b))
      (full_lem r ∙ ap (λ n. n == r.item_count) (sym (length-contents r))),
  Keeps-refl v,
)

abbrev then_run : List Op → Outcome (Ring × Reply) → Outcome (List Reply)
then_run ops m = m >>= λ p. run p.0 ops >>= λ out. done (p.1 ∷ out)

abbrev then_run_fifo : ℕ → List Op → Outcome (List (List ℕ) × Reply) → Outcome (List Reply)
then_run_fifo cap ops m = m >>= λ p. Fifo.run cap p.0 ops >>= λ out. done (p.1 ∷ out)

then_run_refines :
    (r : Ring) (ops : List Op) (m : Outcome (Ring × Reply))
    → Ensures (Kept r) m
    → ((r' : Ring) → Keeps r r' → run r' ops ≡ Fifo.run r.item_count (contents r') ops)
    → then_run ops m ≡ then_run_fifo r.item_count ops (view m)
then_run_refines r ops (done (r', out)) k ih = ap (λ o. o >>= λ outs. done (out ∷ outs)) (ih r' k)
then_run_refines r ops assert_failed k ih = refl
then_run_refines r ops undefined k ih = refl
then_run_refines r ops blocked k ih = refl

-- From a valid ring, any sequence of calls whose items have the ring's item size returns what the
-- bounded queue of its items returns, and aborts exactly where that does.
pub run_refines :
    (ops : List Op) {r : Ring}
    → IsValid r
    → Sized r.item_size ops
    → run r ops ≡ Fifo.run r.item_count (contents r) ops
unfolding run Fifo.run
run_refines [] v s = refl
run_refines (op ∷ ops) {r} v (s, rest) =
    then_run_refines r ops (step r op) (step_refines op v s).1 (λ r' k.
      run_refines ops k.valid (subst (λ n. Sized n ops) (sym k.same_size) rest)
      ∙ ap (λ c. Fifo.run c (contents r') ops) k.same_count)
    ∙ ap (then_run_fifo r.item_count ops) (step_refines op v s).0
