-- ===== src/RingPthread/Invariant/Locals.antt =====
-- What a thread of RingPthread knows where it stands, and when the steps of others leave that alone.
use native.Mathlib.Decide.{ℕ_discrete}
use poski.Base.{
  ℕ, ◌≡◌, ◌≢◌, ◌⊎◌, inl, inr, refl, sym, ◌∙◌, subst, Bool, true, false, Option, none, some, List,
  ◌∷◌, length, some_eq, eq→==, ne→==,
}
use poski.Ring
use poski.Ring.{Ring}
use poski.Ring.Refine.{contents}
use poski.RingPthread.Threads.{
  Pc, idle, put_begin, put_locked, put_pushed, put_signalled, get_begin, get_testing, get_waiting,
  get_ready, get_copied, get_leaving, size_begin, size_locked, size_leaving, critical, update,
}

-- The items to push are whole; past its loop a call with a timeout has an item to take; an item that
-- was copied is still the oldest; only a poll leaves with nothing; the size that was read is the ring's.
abbrev pub Facts : Ring → Pc → Type 0
Facts r (put_begin item) = length item ≡ r.item_size
Facts r (put_locked item) = length item ≡ r.item_size
Facts r (get_ready tmo) = tmo ≢ 0 → Ring.size r ≢ 0
Facts r (get_copied tmo item) = (q : List (List ℕ)) × (contents r ≡ item ∷ q)
Facts r (get_leaving tmo none) = tmo ≡ 0
Facts r (size_leaving n) = Ring.size r ≡ n
Facts r _ = Unit

pub record Thread (r : Ring) (owner : Option ℕ) (t : ℕ) (p : Pc) : Type 0 where
  pub holds : critical p ≡ true → owner ≡ some t
  pub held : owner ≡ some t → critical p ≡ true
  pub facts : Facts r p

-- What a step of thread `t` leaves alone: the other threads own the mutex as before, and the ring
-- changes only in the hands of the owner, who keeps the item size.
pub record Frame (t : ℕ) (r r' : Ring) (owner owner' : Option ℕ) : Type 0 where
  pub loses : (i : ℕ) → i ≢ t → owner ≡ some i → owner' ≡ some i
  pub gains : (i : ℕ) → i ≢ t → owner' ≡ some i → owner ≡ some i
  pub ring : (r' ≡ r) ⊎ ((owner ≡ some t) × (r'.item_size ≡ r.item_size))

-- A thread outside the critical section knows nothing of the ring but its item size.
Facts-outside :
    (r r' : Ring) (p : Pc)
    → critical p ≡ false
    → r'.item_size ≡ r.item_size
    → Facts r p
    → Facts r' p
Facts-outside r r' idle c e h = tt
Facts-outside r r' (put_begin item) c e h = h ∙ sym e
Facts-outside r r' (get_begin tmo) c e h = tt
Facts-outside r r' (get_waiting tmo) c e h = tt
Facts-outside r r' (put_locked item) c e h = absurd (cc)
Facts-outside r r' put_pushed c e h = tt
Facts-outside r r' put_signalled c e h = tt
Facts-outside r r' (get_testing tmo) c e h = tt
Facts-outside r r' (get_ready tmo) c e h = absurd (cc)
Facts-outside r r' (get_copied tmo item) c e h = absurd (cc)
Facts-outside r r' (get_leaving tmo result) c e h = absurd (cc)
Facts-outside r r' size_begin c e h = tt
Facts-outside r r' size_locked c e h = tt
Facts-outside r r' (size_leaving n) c e h = absurd (cc)

module _ {t : ℕ} {r r' : Ring} {owner owner' : Option ℕ} (f : Frame t r r' owner owner') where
  open f use {loses, gains, ring}

  other-Facts : (i : ℕ) (p : Pc) → i ≢ t → Thread r owner i p → Facts r' p
  other-Facts i p ne h = elim ring [
    | inl e ↦ subst (λ x. Facts x p) (sym e) h.facts
    | inr k ↦ Facts-outside r r' p (outside (critical p) refl k.0) k.1 h.facts
  ]
    where
      outside : (b : Bool) → critical p ≡ b → owner ≡ some t → critical p ≡ false
      outside false c o = c
      outside true c o = absurd (ne (some_eq i t (sym (h.holds c) ∙ o)))

  -- The threads after a step of `t` to `p'`.
  pub Thread-update :
      (pc : ℕ → Pc) (p' : Pc)
      → Thread r' owner' t p'
      → ((i : ℕ) → Thread r owner i (pc i))
      → (i : ℕ) → Thread r' owner' i (update pc t p' i)
  Thread-update pc p' own all i = elim (ℕ_discrete i t) [
    | yes e ↦ subst (λ j. Thread r' owner' j (update pc t p' j)) (sym e) (rw (eq→== t t refl) own)
    | no ne ↦ rw (ne→== t i (λ q. ne (sym q))) (record {
      holds = λ c. loses i ne ((all i).holds c);
      held = λ o. (all i).held (gains i ne o);
      facts = other-Facts i (pc i) ne (all i);
    })
  ]
