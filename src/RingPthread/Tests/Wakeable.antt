-- ===== src/RingPthread/Tests/Wakeable.antt =====
-- The calls of the mutex and condition variable of Sleepers that can return.
use poski.Base.{
  ℕ, ◌+◌, ◌<◌, ◌≤◌, ◌≡◌, ◌≢◌, ◌⊎◌, refl, ap, inl, inr, none, some, List, [], ◌∷◌, length, arith,
}
use poski.RingPthread.Condvar.{Enabled}
use native.Mathlib.Decide.{ℕ_discrete}
use poski.Base.{subst, sym}
use poski.RingPthread.Tests.Sleepers.{
  Blocked, Cond, Locking, Signalling, Unlocking, Waiting, Waking, condvar, count, count-other,
  count_self, lock_same, monitor, unlock_same, first, last, nobody, somebody, sleeps, signalled,
  spurious,
}

pub only_self :
    (t i : ℕ) (m m' : Cond) → Waiting t m m' ⊎ Waking t m m' → i ≢ t → Blocked m' i → Blocked m i
only_self t i m _ (inl (sleeps u)) ne h =
    omega (arith, h, count-other t i (t ∷ m.asleep) m.asleep ne refl)
only_self t i m _ (inr (signalled l o e u)) ne h = omega (arith, h, count-other t i m.woken l ne e)
only_self t i m _ (inr (spurious l o e u)) ne h = omega (arith, h, count-other t i m.asleep l ne e)

pub quiet :
    (t i : ℕ) (m m' : Cond)
    → Locking t m m' ⊎ (Unlocking t m m' ⊎ Signalling t m m')
    → Blocked m' i
    → Blocked m i
quiet t i m m' (inl l) h =
    let (a, w) = lock_same t m m' l in omega (arith, h, ap (count i) a, ap (count i) w)
quiet t i m m' (inr (inl l)) h =
    let (a, w) = unlock_same t m m' l in omega (arith, h, ap (count i) a, ap (count i) w)
quiet t i m _ (inr (inr (nobody e))) h = h
quiet t i m _ (inr (inr (somebody j l e u))) h = omega (arith, h, ap (count i) e)

pub ends : (t : ℕ) (m m' : Cond) → Waking t m m' → ¬ Blocked m' t
ends t m _ (signalled l o e u) h = omega (arith, h, m.unique t, ap (count t) e, count_self t l)
ends t m _ (spurious l o e u) h = omega (arith, h, m.unique t, ap (count t) e, count_self t l)

pub can_lock : (t : ℕ) (m : Cond) → m.owner ≡ none → (m' : Cond) × Locking t m m'
can_lock t m o = (record m { owner = some t; depth = 1 }, first o)

pub can_unlock :
    (t : ℕ) (m : Cond) → m.owner ≡ some t → m.depth ≡ 1 → (m' : Cond) × Unlocking t m m'
can_unlock t m o d = (record m { owner = none; depth = 0 }, last d)

pub can_signal : (t : ℕ) (m : Cond) → m.owner ≡ some t → (m' : Cond) × Signalling t m m'
can_signal t m o = by_list m.asleep refl
  where
    by_list : (l : List ℕ) → m.asleep ≡ l → (m' : Cond) × Signalling t m m'
    by_list [] e = (m, nobody e)
    by_list (i ∷ l) e =
        let u : (j : ℕ) → count j l + count j (i ∷ m.woken) ≤ 1 =
          λ j. omega (arith, m.unique j, ap (count j) e) in
        (record m { asleep = l; woken = i ∷ m.woken; unique = u }, somebody i l e u)

pub can_wait :
    (t : ℕ) (m : Cond)
    → m.owner ≡ some t
    → m.depth ≡ 1
    → ¬ Blocked m t
    → (m' : Cond) × Waiting t m m'
can_wait t m o d free_of =
    (record m { owner = none; depth = 0; asleep = t ∷ m.asleep; unique = u }, sleeps u)
  where
    u : (j : ℕ) → count j (t ∷ m.asleep) + count j m.woken ≤ 1
    u j = elim (ℕ_discrete j t) [
      | yes e ↦
          subst (λ x. count x (t ∷ m.asleep) + count x m.woken ≤ 1) (sym e)
            (omega (arith, count_self t m.asleep, free_of))
      | no ne ↦ omega (arith, m.unique j, count-other t j (t ∷ m.asleep) m.asleep ne refl)
    ]

pub can_wake :
    (m : Cond)
    → m.owner ≡ none
    → 0 < length m.woken
    → (t : ℕ) × Blocked m t × ((m' : Cond) × Waking t m m')
can_wake m o h = by_list m.woken refl
  where
    by_list : (l : List ℕ) → m.woken ≡ l → (t : ℕ) × Blocked m t × ((m' : Cond) × Waking t m m')
    by_list [] e = absurd (omega (arith, h, ap (length {0}) e))
    by_list (t ∷ l) e =
        let u : (j : ℕ) → count j m.asleep + count j l ≤ 1 =
          λ j. omega (arith, m.unique j, ap (count j) e) in
        (
          t,
          omega (arith, ap (count t) e, count_self t l),
          (record m { owner = some t; depth = 1; woken = l; unique = u }, signalled l o e u),
        )

abbrev pub enabled : Enabled monitor condvar
enabled = record {
  can_lock = can_lock;
  can_unlock = can_unlock;
  can_signal = can_signal;
  can_wait = can_wait;
  can_wake = can_wake;
  quiet = quiet;
  only_self = only_self;
  ends = ends;
}
