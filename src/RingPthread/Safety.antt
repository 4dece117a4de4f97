-- ===== src/RingPthread/Safety.antt =====
-- RingPthread under any schedule of its threads.
use poski.Base.{
  ℕ, ◌≡◌, ◌≢◌, subst, ap, arith, length, sym, ◌∙◌, true, none, some_eq, List, [], ◌∷◌, ◌++◌, done,
}
use poski.Ring
use poski.Ring.{Ring}
use poski.Ring.Invariant.{IsValid, Keeps}
use poski.Ring.Refine.{contents, front-pop, length-contents}
use poski.RingPthread.Monitor.{Monitor}
use poski.RingPthread.Threads.{Pc, System, Reach, get_copied, get_leaving, size_leaving, critical}
use poski.RingPthread.Invariant.{Inv, Reach-Inv, Thread}

module _ (M : Monitor) {r : Ring} {m : Monitor.State M} {s : System M} (valid : IsValid r)
    (fresh : contents r ≡ []) (free : Monitor.owner M m ≡ none) (reach : Reach M r m s) where
  inv : Inv M s
  inv = Reach-Inv M valid fresh free reach

  here : (t : ℕ) {p : Pc} → s.pc t ≡ p → Thread s.ring (Monitor.owner M s.mon) t p
  here t e = subst (Thread s.ring (Monitor.owner M s.mon) t) e (inv.threads t)

  -- In a state that the threads reach from a fresh object, at most one of them is between taking the
  -- mutex and releasing it.
  pub mutual_exclusion : (i j : ℕ) → critical (s.pc i) ≡ true → critical (s.pc j) ≡ true → i ≡ j
  mutual_exclusion i j ci cj =
      some_eq i j (sym ((inv.threads i).holds ci) ∙ (inv.threads j).holds cj)

  -- In such a state the items pushed so far are those popped so far, followed by those in the ring,
  -- oldest first: none is lost, repeated, made up or overtaken.
  pub sent-received : s.sent ≡ s.received ++ contents s.ring
  sent-received = inv.flow

  -- In such a state a thread that has copied an item out of the ring can pop: the assertion of
  -- `pop_front` holds, what it removes is the item that was copied, and the object stays valid.
  pub copied-pop :
      (t tmo : ℕ) (item : List ℕ)
      → s.pc t ≡ get_copied tmo item
      → (r' : Ring) × (Ring.pop_front s.ring ≡ done r')
        × (contents s.ring ≡ item ∷ contents r')
        × Keeps s.ring r'
  copied-pop t tmo item e =
      let (q, c) = (here t e).facts in
      let (r', _, p, k, c') = front-pop inv.valid (holding item q c) in (r', p, cc, k)
    where
      holding : (x : List ℕ) (q : List (List ℕ)) → contents s.ring ≡ x ∷ q → Ring.size s.ring ≢ 0
      holding x q c z = absurd (omega (arith, z, length-contents s.ring, ap length c))

  -- In such a state a thread that leaves `size` returns the number of the items in the ring.
  pub leaving_size-length : (t n : ℕ) → s.pc t ≡ size_leaving n → length (contents s.ring) ≡ n
  leaving_size-length t n e = length-contents s.ring ∙ (here t e).facts

  -- In such a state a call that leaves with no item was a poll: one with a timeout other than 0 never
  -- gives up.
  pub leaving_none-poll : (t tmo : ℕ) → s.pc t ≡ get_leaving tmo none → tmo ≡ 0
  leaving_none-poll t tmo e = (here t e).facts
