-- ===== src/RingPthread/Progress/Moves.antt =====
-- RingPthread: the steps that a thread can make where it stands.
use native.Mathlib.Decide.{ℕ_discrete}
use poski.Base.{
  ℕ, ◌<◌, ◌≡◌, ◌≢◌, ◌⊎◌, refl, sym, ap, ◌∙◌, subst, inl, inr, true, none, some, List, ◌∷◌, length,
  arith, assert_failed, eq→==,
}
use poski.Ring
use poski.Ring.{Ring}
use poski.Ring.Refine.{contents, length-contents, front-pop, push_back-overflow, push_back-room}
use poski.RingPthread.Monitor.{Monitor}
use poski.RingPthread.Condvar.{Condvar, Enabled}
use poski.RingPthread.Threads.{
  Pc, idle, put_begin, put_locked, put_pushed, put_signalled, get_begin, get_testing, get_waiting,
  get_ready, get_copied, get_leaving, size_begin, size_locked, size_leaving, critical, update,
  System, Step, lock_put, push, signal, unlock_put, lock_get, wait, proceed, copy, no_item, pop,
  unlock_get, lock_size, read_size, unlock_size,
}
use poski.RingPthread.Invariant.{Inv, Facts}
use poski.RingPthread.Progress.Waiting.{IsWaiting, AllWaiting}

contents_some :
    (r : Ring) (item : List ℕ) (q : List (List ℕ)) → contents r ≡ item ∷ q → Ring.size r ≢ 0
contents_some r item q c z = absurd (omega (arith, z, length-contents r, ap (length {0}) c))

module _ (M : Monitor) where
  -- A thread that is in a call makes a step.
  abbrev pub Advances : System M → Type 0
  Advances s = (t : ℕ) × (u : System M) × Step M s u × (s.pc t ≢ idle) × (u.pc t ≢ s.pc t)

  pub advances :
      (s u : System M) (t : ℕ) {p p' : Pc}
      → s.pc t ≡ p
      → u.pc ≡ update s.pc t p'
      → p ≢ idle
      → p' ≢ p
      → Step M s u
      → Advances s
  advances s u t {p} {p'} e g busy moves st =
      (t, u, st, λ h. busy (sym e ∙ h), λ h. moves (sym at ∙ h ∙ e))
    where
      at : u.pc t ≡ p'
      at = ap (λ f. f t) g ∙ rw (eq→== t t refl) refl

  -- A push that fails its assertion, so that the program ends.
  abbrev pub Aborts : System M → Type 0
  Aborts s =
      (t : ℕ) × (item : List ℕ) × (s.pc t ≡ put_locked item)
      × (Ring.push_back s.ring item ≡ assert_failed)

  module _ (C : Condvar M) (E : Enabled M C) where
    open M use {State, owner}
    open C use {Blocked, woken}
    open E use {can_lock, can_unlock, can_signal, can_wait, can_wake}

    testing_moves :
        (s : System M) (t tmo : ℕ)
        → Inv M s
        → AllWaiting M C E s
        → owner s.mon ≡ some t
        → s.pc t ≡ get_testing tmo
        → Advances s
    testing_moves s t tmo inv all o e = elim (ℕ_discrete tmo 0) [
      | yes z ↦ proceeds (inl z)
      | no ne ↦ elim (ℕ_discrete (Ring.size s.ring) 0) [
        | yes z ↦
            let (m, g) = can_wait t s.mon o (inv.once t o) unblocked in
            advances s _ t e refl (λ h. cc) (λ h. cc) (wait t tmo m e ne z g)
        | no some_item ↦ proceeds (inr some_item)
      ]
    ]
      where
        unblocked : ¬ Blocked s.mon t
        unblocked b = let w = subst IsWaiting e (all t b) in let h = w.1 in cc

        proceeds : (tmo ≡ 0) ⊎ (Ring.size s.ring ≢ 0) → Advances s
        proceeds h = advances s _ t e refl (λ q. cc) (λ q. cc) (proceed t tmo e h)

    ready_moves : (s : System M) (t tmo : ℕ) → Inv M s → s.pc t ≡ get_ready tmo → Advances s
    ready_moves s t tmo inv e = elim (ℕ_discrete (Ring.size s.ring) 0) [
      | yes z ↦ advances s _ t e refl (λ h. cc) (λ h. cc) (no_item t tmo e z)
      | no ne ↦
          let (r', f, _, _, _) = front-pop inv.valid ne in
          advances s _ t e refl (λ h. cc) (λ h. cc)
            (copy t tmo (Ring.offset s.ring s.ring.read_index) e ne f)
    ]

    -- The owner of the mutex goes on, or aborts.
    pub owner_moves :
        (s : System M) (t : ℕ) (p : Pc)
        → Inv M s
        → AllWaiting M C E s
        → owner s.mon ≡ some t
        → s.pc t ≡ p
        → critical p ≡ true
        → Advances s ⊎ Aborts s
    owner_moves s t (put_locked item) inv all o e c =
        elim (ℕ_discrete (Ring.size s.ring) s.ring.item_count) [
          | yes full ↦ inr (t, item, e, push_back-overflow s.ring item full)
          | no room ↦
              let sized = subst (Facts s.ring) e (inv.threads t).facts in
              let lt : Ring.size s.ring < s.ring.item_count =
                omega (arith, inv.valid.size_le, room) in
              let (r', h, _, _) = push_back-room inv.valid item sized lt in
              inl (advances s _ t e refl (λ q. cc) (λ q. cc) (push t item r' e h))
        ]
    owner_moves s t put_pushed inv all o e c =
        let (m, g) = can_signal t s.mon o in
        inl (advances s _ t e refl (λ h. cc) (λ h. cc) (signal t m e g))
    owner_moves s t put_signalled inv all o e c =
        let (m, g) = can_unlock t s.mon o (inv.once t o) in
        inl (advances s _ t e refl (λ h. cc) (λ h. cc) (unlock_put t m e g))
    owner_moves s t (get_testing tmo) inv all o e c = inl (testing_moves s t tmo inv all o e)
    owner_moves s t (get_ready tmo) inv all o e c = inl (ready_moves s t tmo inv e)
    owner_moves s t (get_copied tmo item) inv all o e c =
        let (q, held) = subst (Facts s.ring) e (inv.threads t).facts in
        let (r', _, h, _, _) = front-pop inv.valid (contents_some s.ring item q held) in
        inl (advances s _ t e refl (λ h. cc) (λ h. cc) (pop t tmo item r' e h))
    owner_moves s t (get_leaving tmo result) inv all o e c =
        let (m, g) = can_unlock t s.mon o (inv.once t o) in
        inl (advances s _ t e refl (λ h. cc) (λ h. cc) (unlock_get t tmo result m e g))
    owner_moves s t size_locked inv all o e c =
        inl (advances s _ t e refl (λ h. cc) (λ h. cc) (read_size t e))
    owner_moves s t (size_leaving n) inv all o e c =
        let (m, g) = can_unlock t s.mon o (inv.once t o) in
        inl (advances s _ t e refl (λ h. cc) (λ h. cc) (unlock_size t n m e g))
    owner_moves s t size_begin inv all o e c = absurd (cc)
    owner_moves s t idle inv all o e c = absurd (cc)
    owner_moves s t (put_begin item) inv all o e c = absurd (cc)
    owner_moves s t (get_begin tmo) inv all o e c = absurd (cc)
    owner_moves s t (get_waiting tmo) inv all o e c = absurd (cc)

    not_critical :
        (s : System M) (t : ℕ) {p : Pc}
        → Inv M s
        → owner s.mon ≡ none
        → s.pc t ≡ p
        → ¬ (critical p ≡ true)
    not_critical s t inv o e c = let h = (inv.threads t).holds (ap critical e ∙ c) in cc

    -- While the mutex is free, a thread in a call goes on, or it waits.
    pub free_moves :
        (s : System M) (t : ℕ) (p : Pc)
        → Inv M s
        → owner s.mon ≡ none
        → s.pc t ≡ p
        → p ≢ idle
        → Advances s ⊎ IsWaiting p
    free_moves s t idle inv o e busy = absurd (busy refl)
    free_moves s t (put_begin item) inv o e busy =
        let (m, g) = can_lock t s.mon o in
        inl (advances s _ t e refl (λ h. cc) (λ h. cc) (lock_put t item m e g))
    free_moves s t (get_begin tmo) inv o e busy =
        let (m, g) = can_lock t s.mon o in
        inl (advances s _ t e refl (λ h. cc) (λ h. cc) (lock_get t tmo m e g))
    free_moves s t size_begin inv o e busy =
        let (m, g) = can_lock t s.mon o in
        inl (advances s _ t e refl (λ h. cc) (λ h. cc) (lock_size t m e g))
    free_moves s t size_locked inv o e busy = absurd (not_critical s t inv o e refl)
    free_moves s t (size_leaving n) inv o e busy = absurd (not_critical s t inv o e refl)
    free_moves s t (get_waiting tmo) inv o e busy = inr (tmo, refl)
    free_moves s t (put_locked item) inv o e busy = absurd (not_critical s t inv o e refl)
    free_moves s t put_pushed inv o e busy = absurd (not_critical s t inv o e refl)
    free_moves s t put_signalled inv o e busy = absurd (not_critical s t inv o e refl)
    free_moves s t (get_testing tmo) inv o e busy = absurd (not_critical s t inv o e refl)
    free_moves s t (get_ready tmo) inv o e busy = absurd (not_critical s t inv o e refl)
    free_moves s t (get_copied tmo item) inv o e busy = absurd (not_critical s t inv o e refl)
    free_moves s t (get_leaving tmo result) inv o e busy = absurd (not_critical s t inv o e refl)
