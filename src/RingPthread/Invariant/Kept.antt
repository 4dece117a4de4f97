-- ===== src/RingPthread/Invariant/Kept.antt =====
-- What a push or a pop that returns leaves behind in the ring of a RingPthread.
use poski.Base.{
  ℕ, ◌≡◌, sym, ap, ◌∙◌, subst, Bool, true, false, List, [], ◌∷◌, ◌++◌, length, done, assert_failed,
  Ensures, ◌>>=◌, done_eq, ◌==◌, if◌then◌else◌,
}
use poski.Ring
use poski.Ring.{Ring}
use poski.Ring.Fifo
use poski.Ring.Invariant.{IsValid, Keeps}
use poski.Ring.Refine.{contents, push_back_refines, pop_front_refines}

-- What a push that returns leaves behind.
pub push-Keeps :
    {r r' : Ring} (item : List ℕ)
    → IsValid r
    → length item ≡ r.item_size
    → Ring.push_back r item ≡ done r'
    → Keeps r r' × (contents r' ≡ contents r ++ item ∷ [])
unfolding Fifo.push_back
push-Keeps {r} {r'} item v e h =
    let (eq, k) = push_back_refines v item e in
    (
      subst (Ensures (Keeps r)) h k,
      pushed (length (contents r) == r.item_count)
          (sym (ap (λ m. m >>= λ x. done (contents x)) h) ∙ eq),
    )
  where
    pushed :
        (b : Bool)
        → done (contents r') ≡ (if b then assert_failed else done (contents r ++ item ∷ []))
        → contents r' ≡ contents r ++ item ∷ []
    pushed true q = absurd (cc)
    pushed false q = cc

-- What a pop that returns leaves behind.
pub pop-Keeps :
    {r r' : Ring} (item : List ℕ) (q : List (List ℕ))
    → IsValid r
    → contents r ≡ item ∷ q
    → Ring.pop_front r ≡ done r'
    → Keeps r r' × (contents r' ≡ q)
unfolding Fifo.pop_front
pop-Keeps {r} {r'} item q v e h =
    let (eq, k) = pop_front_refines v in
    (
      subst (Ensures (Keeps r)) h k,
      done_eq _ _ (sym (ap (λ m. m >>= λ x. done (contents x)) h) ∙ eq ∙ ap Fifo.pop_front e),
    )
