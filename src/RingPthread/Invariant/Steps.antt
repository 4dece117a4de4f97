-- ===== src/RingPthread/Invariant/Steps.antt =====
-- The invariant of RingPthread and each kind of step.
use mathlib.Core.Bool.{false≢true}
use native.Mathlib.Decide.{ℕ_discrete}
use poski.Base.{
  ℕ, ◌≡◌, inl, inr, refl, sym, ap, ◌∙◌, subst, true, false, none, some, List, [], ◌∷◌, ◌++◌,
  append_assoc, some_eq, none-ne-some,
}
use poski.Ring
use poski.Ring.{Ring}
use poski.Ring.Invariant.{IsValid, Keeps}
use poski.Ring.Refine.{contents, front-pop}
use poski.RingPthread.Monitor.{Monitor}
use poski.RingPthread.Threads.{
  Pc, idle, put_begin, put_locked, put_pushed, put_signalled, get_begin, get_testing, get_waiting,
  get_ready, get_copied, get_leaving, size_begin, size_locked, size_leaving, critical, System, goes,
  Step, call_put, lock_put, push, signal, unlock_put, call_get, lock_get, wait, wake, proceed, copy,
  no_item, pop, unlock_get, call_size, lock_size, read_size, unlock_size,
}
use poski.RingPthread.Invariant.Kept.{push-Keeps, pop-Keeps}
use poski.RingPthread.Invariant.Locals.{Facts, Thread, Thread-update}

module _ (M : Monitor) where
  open M use {
    State, owner, depth, Lock, Unlock, Signal, Wait, Wake, lock_lem, unlock_lem, signal_lem,
    wait_lem, wake_lem,
  }

  pub record Inv (s : System M) : Type 0 where
    pub valid : IsValid s.ring
    -- What was pushed was popped, or is in the ring, in this order.
    pub flow : s.sent ≡ s.received ++ contents s.ring
    pub once : (t : ℕ) → owner s.mon ≡ some t → depth s.mon ≡ 1
    pub threads : (t : ℕ) → Thread s.ring (owner s.mon) t (s.pc t)

  module _ {s : System M} (inv : Inv s) (t : ℕ) where
    open inv use {valid, flow, once, threads}

    here : {p : Pc} → s.pc t ≡ p → Thread s.ring (owner s.mon) t p
    here e = subst (Thread s.ring (owner s.mon) t) e (threads t)

    -- A step that leaves the ring and the owner alone.
    signals :
        (p p' : Pc) (m : State)
        → s.pc t ≡ p
        → critical p' ≡ critical p
        → owner m ≡ owner s.mon
        → depth m ≡ depth s.mon
        → Facts s.ring p'
        → Inv (goes M (record s { mon = m }) t p')
    signals p p' m e same o d new = record {
      valid = valid;
      flow = flow;
      once = λ i h. d ∙ once i (sym o ∙ h);
      threads =
          Thread-update
            (record { loses = λ i ne h. o ∙ h; gains = λ i ne h. sym o ∙ h; ring = inl refl }) s.pc
            p'
            (record {
              holds = λ c. o ∙ (here e).holds (sym same ∙ c);
              held = λ h. same ∙ (here e).held (sym o ∙ h);
              facts = new;
            })
            threads;
    }

    moves :
        (p p' : Pc) → s.pc t ≡ p → critical p' ≡ critical p → Facts s.ring p' → Inv (goes M s t p')
    moves p p' e same new = signals p p' s.mon e same refl refl new

    -- A step that takes the mutex.
    acquires :
        (p' : Pc) (m : State)
        → owner s.mon ≡ none
        → owner m ≡ some t
        → depth m ≡ 1
        → critical p' ≡ true
        → Facts s.ring p'
        → Inv (goes M (record s { mon = m }) t p')
    acquires p' m free mine one c new = record {
      valid = valid;
      flow = flow;
      once = λ i o. one;
      threads =
          Thread-update
            (record {
              loses = λ i ne h. cc;
              gains = λ i ne h. absurd (ne (some_eq i t (sym h ∙ mine)));
              ring = inl refl;
            })
            s.pc p' (record { holds = λ _. mine; held = λ _. c; facts = new }) threads;
    }

    -- A step that gives it back.
    releases :
        (p' : Pc) (m : State)
        → owner s.mon ≡ some t
        → owner m ≡ none
        → critical p' ≡ false
        → Facts s.ring p'
        → Inv (goes M (record s { mon = m }) t p')
    releases p' m mine free c new = record {
      valid = valid;
      flow = flow;
      once = λ i h. absurd (none-ne-some i (sym free ∙ h));
      threads =
          Thread-update
            (record {
              loses = λ i ne h. absurd (ne (some_eq i t (sym h ∙ mine)));
              gains = λ i ne h. absurd (none-ne-some i (sym free ∙ h));
              ring = inl refl;
            })
            s.pc p'
            (record {
              holds = λ h. absurd (false≢true (sym c ∙ h));
              held = λ h. absurd (none-ne-some t (sym free ∙ h));
              facts = new;
            })
            threads;
    }

    -- A lock of a thread that does not hold the mutex finds it free.
    locks :
        (p p' : Pc) (m : State)
        → s.pc t ≡ p
        → critical p ≡ false
        → Lock t s.mon m
        → critical p' ≡ true
        → Facts s.ring p'
        → Inv (goes M (record s { mon = m }) t p')
    locks p p' m e out l c new = elim (lock_lem t s.mon m l) [
      | inl (free, mine, one) ↦ acquires p' m free mine one c new
      | inr (mine, _, _) ↦ let h = (here e).held mine in absurd (cc)
    ]

    -- A step of the owner that changes the ring.
    updates :
        (p p' : Pc) (r : Ring) (sent received : List (List ℕ))
        → s.pc t ≡ p
        → critical p ≡ true
        → critical p' ≡ true
        → Keeps s.ring r
        → sent ≡ received ++ contents r
        → Facts r p'
        → Inv (goes M (record s { ring = r; sent = sent; received = received }) t p')
    updates p p' r sent received e c c' k fl new = record {
      valid = k.valid;
      flow = fl;
      once = once;
      threads =
          Thread-update
            (record {
              loses = λ i ne h. h;
              gains = λ i ne h. h;
              ring = inr ((here e).holds c, k.same_size);
            })
            s.pc p' (record { holds = λ _. (here e).holds c; held = λ _. c'; facts = new }) threads;
    }

  pub Step-Inv : {s u : System M} → Step M s u → Inv s → Inv u
  Step-Inv (call_put t item e n) inv = moves inv t idle (put_begin item) e refl n
  Step-Inv (lock_put t item m e l) inv =
      locks inv t (put_begin item) (put_locked item) m e refl l refl (here inv t e).facts
  Step-Inv {s} (push t item r e h) inv =
      let (k, c) = push-Keeps item inv.valid (here inv t e).facts h in
      updates inv t (put_locked item) put_pushed r _ _ e refl refl k
        (ap (λ l. l ++ item ∷ []) inv.flow
          ∙ append_assoc s.received (contents s.ring) (item ∷ [])
          ∙ ap (◌++◌ s.received) (sym c))
        tt
  Step-Inv (signal t m e g) inv =
      let (o, d) = signal_lem t _ m g in signals inv t put_pushed put_signalled m e refl o d tt
  Step-Inv (unlock_put t m e u) inv =
      let mine = (here inv t e).holds refl in
      releases inv t idle m mine (unlock_lem t _ m u mine (inv.once t mine)) refl tt
  Step-Inv (call_get t tmo e) inv = moves inv t idle (get_begin tmo) e refl tt
  Step-Inv (lock_get t tmo m e l) inv =
      locks inv t (get_begin tmo) (get_testing tmo) m e refl l refl tt
  Step-Inv (wait t tmo m e _ _ w) inv =
      let mine = (here inv t e).holds refl in
      releases inv t (get_waiting tmo) m mine (wait_lem t _ m w mine (inv.once t mine)) refl tt
  Step-Inv (wake t tmo m e w) inv =
      let (free, mine, one) = wake_lem t _ m w in
      acquires inv t (get_testing tmo) m free mine one refl tt
  Step-Inv (proceed t tmo e c) inv =
      moves inv t (get_testing tmo) (get_ready tmo) e refl
        (λ ne. elim c [ inl z ↦ absurd (ne z) | inr some_item ↦ some_item ])
  Step-Inv {s} (copy t tmo off e ne f) inv =
      let (r', f', _, _, c) = front-pop inv.valid ne in
      moves inv t (get_ready tmo) (get_copied tmo (Ring.item_at s.ring off)) e refl
        (contents r', c ∙ ap (λ o. Ring.item_at s.ring o ∷ contents r') (some_eq _ _ (sym f' ∙ f)))
  Step-Inv (no_item t tmo e z) inv =
      moves inv t (get_ready tmo) (get_leaving tmo none) e refl
        (elim (ℕ_discrete tmo 0) [ yes p ↦ p | no ne ↦ absurd ((here inv t e).facts ne z) ])
  Step-Inv {s} (pop t tmo item r e h) inv =
      let (q, c) = (here inv t e).facts in
      let (k, rest) = pop-Keeps item q inv.valid c h in
      updates inv t (get_copied tmo item) (get_leaving tmo (some item)) r _ _ e refl refl k
        (inv.flow
          ∙ ap (◌++◌ s.received) (c ∙ ap (◌∷◌ item) (sym rest))
          ∙ sym (append_assoc s.received (item ∷ []) (contents r)))
        tt
  Step-Inv (unlock_get t tmo result m e u) inv =
      let mine = (here inv t e).holds refl in
      releases inv t idle m mine (unlock_lem t _ m u mine (inv.once t mine)) refl tt
  Step-Inv (call_size t e) inv = moves inv t idle size_begin e refl tt
  Step-Inv (lock_size t m e l) inv = locks inv t size_begin size_locked m e refl l refl tt
  Step-Inv {s} (read_size t e) inv =
      moves inv t size_locked (size_leaving (Ring.size s.ring)) e refl refl
  Step-Inv (unlock_size t n m e u) inv =
      let mine = (here inv t e).holds refl in
      releases inv t idle m mine (unlock_lem t _ m u mine (inv.once t mine)) refl tt
