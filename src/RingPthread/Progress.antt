-- ===== src/RingPthread/Progress.antt =====
-- RingPthread: that its threads go on, in any state that they reach.
pub mod Waiting
mod Moves
pub use Moves.{Advances, Aborts}
use poski.Base.{ℕ, ◌≡◌, ◌≢◌, ◌⊎◌, refl, inl, inr, Option, none, some, List, [], ◌∷◌, sym, ◌∙◌}
use poski.Ring.{Ring}
use poski.Ring.Invariant.{IsValid}
use poski.Ring.Refine.{contents}
use poski.RingPthread.Monitor.{Monitor}
use poski.RingPthread.Condvar.{Condvar, Enabled}
use poski.RingPthread.Threads.{idle, get_testing, System, wake, Reach}
use poski.RingPthread.Invariant.{Inv, Reach-Inv}
use poski.RingPthread.Wakeup.{waiting-woken}
use poski.RingPthread.Progress.Waiting.{IsWaiting, AllWaiting, Reach-AllWaiting}
use poski.RingPthread.Progress.Moves.{advances, owner_moves, free_moves}

module _ (M : Monitor) (C : Condvar M) (E : Enabled M C) {r : Ring} {m : Monitor.State M}
    {s : System M} (valid : IsValid r) (fresh : contents r ≡ []) (free : Monitor.owner M m ≡ none)
    (nobody : (i : ℕ) → ¬ C.Blocked m i) (reach : Reach M r m s) where
  inv : Inv M s
  inv = Reach-Inv M valid fresh free reach

  all : AllWaiting M C E s
  all = Reach-AllWaiting M C E nobody reach

  -- A thread that waits while the ring holds an item is not alone: a woken one can go on.
  waiting_moves :
      (t : ℕ) (item : List ℕ) (q : List (List ℕ))
      → IsWaiting (s.pc t)
      → Monitor.owner M s.mon ≡ none
      → contents s.ring ≡ item ∷ q
      → Advances M s
  waiting_moves t item q (tmo, w) o c =
      let (awake, _) =
        waiting-woken M C valid fresh free reach t tmo w o (λ e. let h = sym c ∙ e in cc) in
      let (i, b, w') = E.can_wake s.mon o awake in
      let (m', st) = w' in
      let (tmo', e) = all i b in advances M s _ i e refl (λ h. cc) (λ h. cc) (wake i tmo' m' e st)

  -- No deadlock: in a state that the threads reach from a fresh object, on whose condition variable
  -- nobody waits, if a thread is in a call then some thread in a call makes a step, or a push to a full
  -- ring fails its assertion, or the thread waits in `get` and the ring is empty.
  pub no_deadlock :
      (t : ℕ)
      → s.pc t ≢ idle
      → Advances M s ⊎ (Aborts M s ⊎ (IsWaiting (s.pc t) × (contents s.ring ≡ [])))
  no_deadlock t busy = by_owner (Monitor.owner M s.mon) refl
    where
      empty_or :
          (l : List (List ℕ))
          → contents s.ring ≡ l
          → Monitor.owner M s.mon ≡ none
          → IsWaiting (s.pc t)
          → Advances M s ⊎ (Aborts M s ⊎ (IsWaiting (s.pc t) × (contents s.ring ≡ [])))
      empty_or [] c o w = inr (inr (w, c))
      empty_or (item ∷ q) c o w = inl (waiting_moves t item q w o c)

      by_owner :
          (o : Option ℕ)
          → Monitor.owner M s.mon ≡ o
          → Advances M s ⊎ (Aborts M s ⊎ (IsWaiting (s.pc t) × (contents s.ring ≡ [])))
      by_owner (some i) e =
          elim (owner_moves M C E s i (s.pc i) inv all e refl ((inv.threads i).held e)) [
            | inl a ↦ inl a
            | inr a ↦ inr (inl a)
          ]
      by_owner none e = elim (free_moves M C E s t (s.pc t) inv e refl busy) [
        | inl a ↦ inl a
        | inr w ↦ empty_or (contents s.ring) refl e w
      ]
