-- ===== src/RingPthread/Wakeup.antt =====
-- RingPthread and the threads that sleep in `get`: for each item in the ring that they could take, a
-- wakeup is on its way.
pub mod Credit
mod Blocked
use native.Mathlib.Decide.{ℕ_discrete}
use poski.Base.{
  ℕ, zero, suc, ◌+◌, ◌≤◌, ◌<◌, ◌≡◌, ◌≢◌, ◌⊎◌, refl, sym, ap, ◌∙◌, subst, inl, inr, Bool, true,
  false, Option, none, some, List, [], ◌∷◌, ◌++◌, length, length-append, arith,
}
use poski.Ring
use poski.Ring.{Ring}
use poski.Ring.Invariant.{IsValid}
use poski.Ring.Refine.{contents, length-contents}
use poski.RingPthread.Monitor.{Monitor}
use poski.RingPthread.Condvar.{Condvar}
use poski.RingPthread.Threads.{
  Pc, idle, put_begin, put_locked, put_pushed, put_signalled, get_begin, get_testing, get_waiting,
  get_ready, get_copied, get_leaving, size_begin, size_locked, size_leaving, critical, update,
  System, goes, Step, call_put, lock_put, push, signal, unlock_put, call_get, lock_get, wait, wake,
  proceed, copy, no_item, pop, unlock_get, call_size, lock_size, read_size, unlock_size, Reach,
  start, later,
}
use poski.RingPthread.Invariant.{Inv, Facts, Reach-Inv, push-Keeps, pop-Keeps}
use poski.RingPthread.Wakeup.Credit.{
  weight, credit, credit-own, credit-here, credit-free, credit-outside, Waits, Waits-update,
}
use poski.RingPthread.Wakeup.Blocked.{Reach-AllBlocked}

module _ (M : Monitor) (C : Condvar M) where
  open M use {
    State, owner, Lock, Unlock, Signal, Wait, Wake, lock_lem, unlock_lem, signal_lem, wait_lem,
    wake_lem,
  }
  open C use {
    Blocked, asleep, woken, counted, lock_asleep, lock_woken, unlock_asleep, unlock_woken,
    signal_some, signal_none, wait_woken, wait_blocks, wake_counts, stays,
  }

  -- While a thread sleeps, each item in the ring has a woken thread to take it, or the owner of the
  -- mutex has still to signal it, or is about to take one.
  abbrev pub Covered : System M → Type 0
  Covered s = 0 < asleep s.mon → length (contents s.ring) ≤ woken s.mon + credit (owner s.mon) s.pc

  module _ {s : System M} (inv : Inv M s) (cov : Covered s) (t : ℕ) where
    mine : {p : Pc} → s.pc t ≡ p → critical p ≡ true → owner s.mon ≡ some t
    mine e c = (inv.threads t).holds (ap critical e ∙ c)

    not_mine : {p : Pc} → s.pc t ≡ p → critical p ≡ false → owner s.mon ≢ some t
    not_mine e c o = let h = (inv.threads t).held o in cc

    -- A step of a thread without the mutex that leaves it and the ring alone.
    outside : {p : Pc} (p' : Pc) → s.pc t ≡ p → critical p ≡ false → Covered (goes M s t p')
    outside {p} p' e c h =
        omega (arith, cov h, credit-outside (owner s.mon) s.pc t p' (not_mine e c))

    -- A step of the owner that leaves the condition variable alone.
    inside :
        {p : Pc} (p' : Pc) (r : Ring) (sent received : List (List ℕ))
        → s.pc t ≡ p
        → critical p ≡ true
        → length (contents r) + weight p ≤ length (contents s.ring) + weight p'
        → Covered (goes M (record s { ring = r; sent = sent; received = received }) t p')
    inside {p} p' r sent received e c le h = omega (
      arith,
      cov h,
      le,
      credit-own (owner s.mon) s.pc t p' (mine e c),
      credit-here (owner s.mon) s.pc t p (mine e c) e,
    )

    -- A lock of the mutex.
    locks :
        {p : Pc} (p' : Pc) (m : State)
        → s.pc t ≡ p
        → critical p ≡ false
        → Lock t s.mon m
        → Covered (goes M (record s { mon = m }) t p')
    locks {p} p' m e c l h = elim (lock_lem t s.mon m l) [
      | inl (free, _, _) ↦ omega (
        arith,
        cov (omega (arith, h, lock_asleep t s.mon m l)),
        lock_woken t s.mon m l,
        credit-free (owner s.mon) s.pc free,
      )
      | inr (o, _, _) ↦ absurd (not_mine e c o)
    ]

    -- The unlock of a thread that answers for no item.
    unlocks :
        {p : Pc} (p' : Pc) (m : State)
        → s.pc t ≡ p
        → critical p ≡ true
        → weight p ≡ 0
        → Unlock t s.mon m
        → Covered (goes M (record s { mon = m }) t p')
    unlocks {p} p' m e c w l h = omega (
      arith,
      cov (omega (arith, h, unlock_asleep t s.mon m l)),
      unlock_woken t s.mon m l,
      w,
      credit-here (owner s.mon) s.pc t p (mine e c) e,
    )

  no_items : (r : Ring) → Ring.size r ≡ 0 → length (contents r) ≡ 0
  no_items r z = length-contents r ∙ z

  Step-Covered : {s u : System M} → Step M s u → Inv M s → Covered s → Covered u
  Step-Covered (call_put t item e n) inv cov = outside inv cov t _ e refl
  Step-Covered (lock_put t item m e l) inv cov = locks inv cov t _ m e refl l
  Step-Covered {s} (push t item r e h) inv cov =
      let (k, c) = push-Keeps item inv.valid (subst (Facts s.ring) e (inv.threads t).facts) h in
      inside inv cov t _ r s.sent s.received e refl
        (omega (arith, ap (length {0}) c, length-append {0} (contents s.ring) (item ∷ [])))
  Step-Covered {s} (signal t m e g) inv cov = λ h. elim (ℕ_discrete (asleep s.mon) 0) [
    | yes z ↦ absurd (omega (arith, h, signal_none t s.mon m g z))
    | no ne ↦ omega (
      arith,
      cov (omega (arith, ne)),
      signal_some t s.mon m g (omega (arith, ne)),
      credit-here (owner s.mon) s.pc t put_pushed (mine inv cov t e refl) e,
    )
  ]
  Step-Covered (unlock_put t m e l) inv cov = unlocks inv cov t _ m e refl refl l
  Step-Covered (call_get t tmo e) inv cov = outside inv cov t _ e refl
  Step-Covered (lock_get t tmo m e l) inv cov = locks inv cov t _ m e refl l
  Step-Covered {s} (wait t tmo m e _ z w) inv cov = λ h. omega (arith, no_items s.ring z)
  Step-Covered {s} (wake t tmo m e w) inv cov = λ h.
      let (free, o, _) = wake_lem t s.mon m w in
      elim (wake_counts t s.mon m w) [
        | inl (k, a) ↦ omega (
          arith,
          cov (omega (arith, h, a)),
          k,
          credit-free (owner s.mon) s.pc free,
          credit-own (owner m) s.pc t (get_testing tmo) o,
        )
        | inr (k, a) ↦ omega (arith, cov (omega (arith, k)), a, credit-free (owner s.mon) s.pc free)
      ]
  Step-Covered {s} (proceed t tmo e c) inv cov =
      inside inv cov t _ s.ring s.sent s.received e refl (omega arith)
  Step-Covered {s} (copy t tmo off e ne f) inv cov =
      inside inv cov t _ s.ring s.sent s.received e refl (omega arith)
  Step-Covered {s} (no_item t tmo e z) inv cov = λ h. omega (arith, no_items s.ring z)
  Step-Covered {s} (pop t tmo item r e h) inv cov =
      let (q, c) = subst (Facts s.ring) e (inv.threads t).facts in
      let (_, rest) = pop-Keeps item q inv.valid c h in
      inside inv cov t _ r s.sent s.received e refl
        (omega (arith, ap (length {0}) c, ap (length {0}) rest))
  Step-Covered (unlock_get t tmo result m e l) inv cov = unlocks inv cov t _ m e refl refl l
  Step-Covered (call_size t e) inv cov = outside inv cov t _ e refl
  Step-Covered (lock_size t m e l) inv cov = locks inv cov t _ m e refl l
  Step-Covered {s} (read_size t e) inv cov =
      inside inv cov t _ s.ring s.sent s.received e refl (omega arith)
  Step-Covered (unlock_size t n m e l) inv cov = unlocks inv cov t _ m e refl refl l

  Reach-Covered :
      {r : Ring} {m : State} {s : System M}
      → IsValid r
      → contents r ≡ []
      → owner m ≡ none
      → Reach M r m s
      → Covered s
  Reach-Covered v e free start = λ h. omega (arith, ap (length {0}) e)
  Reach-Covered v e free (later r st) =
      Step-Covered st (Reach-Inv M v e free r) (Reach-Covered v e free r)

  -- No wakeup is lost: if in a state that the threads reach from a fresh object a thread waits in
  -- `get` while the mutex is free and the ring holds an item, then a waiting thread was woken, and
  -- while another one still sleeps there are at least as many woken threads as items.
  pub waiting-woken :
      {r : Ring} {m : State} {s : System M}
      → IsValid r
      → contents r ≡ []
      → owner m ≡ none
      → Reach M r m s
      → (t tmo : ℕ) → s.pc t ≡ get_waiting tmo
      → owner s.mon ≡ none
      → contents s.ring ≢ []
      → (0 < woken s.mon) × (0 < asleep s.mon → length (contents s.ring) ≤ woken s.mon)
  waiting-woken {s = s} v e free reach t tmo w o some_items = (
    elim (ℕ_discrete (asleep s.mon) 0) [
      | yes z ↦ omega (arith, there, z)
      | no ne ↦ omega (arith, covered (omega (arith, ne)), items (contents s.ring) some_items)
    ],
    covered,
  )
    where
      there : 0 < asleep s.mon + woken s.mon
      there =
          counted t s.mon (subst (λ p. Waits p (Blocked s.mon t)) w (Reach-AllBlocked M C reach t))

      covered : 0 < asleep s.mon → length (contents s.ring) ≤ woken s.mon
      covered h = omega (arith, Reach-Covered v e free reach h, credit-free (owner s.mon) s.pc o)

      items : (l : List (List ℕ)) → l ≢ [] → 0 < length l
      items [] ne = absurd (ne refl)
      items (x ∷ l) ne = omega arith
