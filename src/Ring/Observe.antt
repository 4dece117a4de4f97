-- ===== src/Ring/Observe.antt =====
-- What a client of OsRing can find out about an object by its calls; the indices and the bytes that are
-- not in use are forgotten by a quotient.
use mathlib.Core.Quot
use mathlib.Core.Quot.{Quot, Quot-set}
use poski.Base.{
  ℕ, ◌≡◌, ◌↔◌, refl, sym, ap, ap₂, ◌∙◌, subst, List, [], ◌∷◌, Outcome, done, assert_failed,
  undefined, blocked, ◌>>=◌,
}
use poski.Ring.Ops.{Op, pop, peek, Reply, nothing, Sized}
use poski.Ring.Fifo
use poski.Ring.Fifo.{Fifo}
use poski.Ring.{Ring}
use poski.Ring.Invariant.{IsValid}
use poski.Ring.Refine.{contents}
use poski.Ring.Run.{run, run_refines}

-- The replies behind the first.
rest : List Reply → List Reply
rest [] = []
rest (x ∷ out) = out

behind : Outcome (List Reply) → Outcome (List Reply)
behind m = m >>= λ out. done (nothing ∷ out)

behind-injective : (m m' : Outcome (List Reply)) → behind m ≡ behind m' → m ≡ m'
unfolding behind rest
behind-injective m m' h = sym (back m) ∙ ap (λ n. n >>= λ out. done (rest out)) h ∙ back m'
  where
    back : (n : Outcome (List Reply)) → (behind n >>= λ out. done (rest out)) ≡ n
    back (done out) = refl
    back assert_failed = refl
    back undefined = refl
    back blocked = refl

-- Queues that answer every client in the same way hold the same items.
fifo_same :
    (cap size : ℕ) (q q' : Fifo)
    → ((ops : List Op) → Sized size ops → Fifo.run cap q ops ≡ Fifo.run cap q' ops)
    → q ≡ q'
unfolding Fifo.run Fifo.step behind
fifo_same cap size [] [] same = refl
fifo_same cap size [] (y ∷ q') same = absurd (let h = same (peek ∷ []) (tt, tt) in cc)
fifo_same cap size (x ∷ q) [] same = absurd (let h = same (peek ∷ []) (tt, tt) in cc)
fifo_same cap size (x ∷ q) (y ∷ q') same = ap₂ ◌∷◌ heads (
    fifo_same cap size q q' (λ ops s.
      behind-injective (Fifo.run cap q ops) (Fifo.run cap q' ops) (same (pop ∷ ops) (tt, s))))
  where
    heads : x ≡ y
    heads = let h = same (peek ∷ []) (tt, tt) in cc

-- No client tells the objects apart.
abbrev pub SameRuns : Ring → Ring → Type 0
SameRuns r s = (ops : List Op) → Sized r.item_size ops → run r ops ≡ run s ops

-- For valid rings of the same dimensions, every sequence of calls whose items have the ring's item size
-- returns the same on both, or aborts on both, exactly if they hold the same items in the same order:
-- the position of the items in the buffer, the indices and the unused bytes are never seen.
pub SameRuns-contents :
    {r s : Ring}
    → IsValid r
    → IsValid s
    → s.item_count ≡ r.item_count
    → s.item_size ≡ r.item_size
    → SameRuns r s ↔ (contents r ≡ contents s)
SameRuns-contents {r} {s} vr vs count size = (to, from)
  where
    on_s :
        (ops : List Op) → Sized r.item_size ops → run s ops ≡ Fifo.run r.item_count (contents s) ops
    on_s ops sized =
        run_refines ops vs (subst (λ n. Sized n ops) (sym size) sized)
        ∙ ap (λ c. Fifo.run c (contents s) ops) count

    to : SameRuns r s → contents r ≡ contents s
    to same =
        fifo_same r.item_count r.item_size (contents r) (contents s)
          (λ ops sized. sym (run_refines ops vr sized) ∙ same ops sized ∙ on_s ops sized)

    from : contents r ≡ contents s → SameRuns r s
    from e ops sized =
        run_refines ops vr sized ∙ ap (λ q. Fifo.run r.item_count q ops) e ∙ sym (on_s ops sized)

-- Valid rings of `count` items of `size` bytes.
abbrev pub ValidRing : ℕ → ℕ → Type 0
ValidRing count size = (r : Ring) × IsValid r × (r.item_count ≡ count) × (r.item_size ≡ size)

module _ (count size : ℕ) where
  abbrev pub Same : ValidRing count size → ValidRing count size → Type 0
  Same a b = SameRuns a.0 b.0

  Same-contents : (a b : ValidRing count size) → Same a b ↔ (contents a.0 ≡ contents b.0)
  Same-contents (r, v, c, z) (s, w, d, x) = SameRuns-contents v w (d ∙ sym c) (x ∙ sym z)

  -- What clients know of a ring: all that no client tells apart is one.
  abbrev pub Queue : Type 0
  Queue = Quot Same

  pub queue_items : Queue → Fifo
  queue_items = Quot.lift (hlevel) (λ a. contents a.0) (λ a b h. (Same-contents a b).0 h)

  -- It is its items.
  pub queue_items-injective : (a b : Queue) → queue_items a ≡ queue_items b → a ≡ b
  unfolding queue_items
  queue_items-injective =
      Quot.ind (λ a. hlevel (Quot-set))
        (λ r. Quot.ind (λ b. hlevel (Quot-set)) (λ s e. Quot.sound ((Same-contents r s).1 e)))
