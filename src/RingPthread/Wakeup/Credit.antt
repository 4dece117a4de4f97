-- ===== src/RingPthread/Wakeup/Credit.antt =====
-- How many items the owner of the mutex of a RingPthread answers for, and which threads wait.
use native.Mathlib.Decide.{ℕ_discrete}
use poski.Base.{ℕ, ◌≡◌, ◌≢◌, refl, sym, ap, subst, Option, none, some, eq→==, ne→==}
use poski.RingPthread.Threads.{
  Pc, idle, put_begin, put_locked, put_pushed, put_signalled, get_begin, get_testing, get_waiting,
  get_ready, get_copied, get_leaving, size_begin, size_locked, size_leaving, update,
}

-- After a push the signal is still to come; in `get` an item may still be taken.
abbrev pub weight : Pc → ℕ
weight put_pushed = 1
weight (get_testing tmo) = 1
weight (get_ready tmo) = 1
weight (get_copied tmo item) = 1
weight _ = 0

abbrev pub credit : Option ℕ → (ℕ → Pc) → ℕ
credit none pc = 0
credit (some t) pc = weight (pc t)

pub credit-own :
    (o : Option ℕ) (pc : ℕ → Pc) (t : ℕ) (p : Pc) → o ≡ some t → credit o (update pc t p) ≡ weight p
credit-own o pc t p e = rw (e, eq→== t t refl) refl

pub credit-here :
    (o : Option ℕ) (pc : ℕ → Pc) (t : ℕ) (p : Pc) → o ≡ some t → pc t ≡ p → credit o pc ≡ weight p
credit-here o pc t p e h = rw e (ap weight h)

pub credit-free : (o : Option ℕ) (pc : ℕ → Pc) → o ≡ none → credit o pc ≡ 0
credit-free o pc e = rw e refl

-- A thread without the mutex does not change what its owner answers for.
pub credit-outside :
    (o : Option ℕ) (pc : ℕ → Pc) (t : ℕ) (p : Pc)
    → o ≢ some t
    → credit o (update pc t p) ≡ credit o pc
credit-outside none pc t p ne = refl
credit-outside (some i) pc t p ne = rw (ne→== t i (λ e. ne (ap some (sym e)))) refl

abbrev pub Waits : Pc → Type 0 → Type 0
Waits (get_waiting tmo) B = B
Waits _ B = Unit

-- The waiting threads after a step of `t` to `p`.
pub Waits-update :
    {B B' : ℕ → Type 0} (pc : ℕ → Pc) (t : ℕ) (p : Pc)
    → ((i : ℕ) → i ≢ t → B i → B' i)
    → Waits p (B' t)
    → ((i : ℕ) → Waits (pc i) (B i))
    → (i : ℕ) → Waits (update pc t p i) (B' i)
Waits-update {B} {B'} pc t p keep own all i = elim (ℕ_discrete i t) [
  | yes e ↦ subst (λ j. Waits (update pc t p j) (B' j)) (sym e) (rw (eq→== t t refl) own)
  | no ne ↦ rw (ne→== t i (λ q. ne (sym q))) (other ne (pc i) (all i))
]
  where
    other : i ≢ t → (q : Pc) → Waits q (B i) → Waits q (B' i)
    other ne (get_waiting tmo) h = keep i ne h
    other ne idle h = tt
    other ne (put_begin item) h = tt
    other ne (put_locked item) h = tt
    other ne put_pushed h = tt
    other ne put_signalled h = tt
    other ne (get_begin tmo) h = tt
    other ne (get_testing tmo) h = tt
    other ne (get_ready tmo) h = tt
    other ne (get_copied tmo item) h = tt
    other ne (get_leaving tmo result) h = tt
    other ne size_begin h = tt
    other ne size_locked h = tt
    other ne (size_leaving n) h = tt
