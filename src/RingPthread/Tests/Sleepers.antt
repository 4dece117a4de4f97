-- ===== src/RingPthread/Tests/Sleepers.antt =====
-- A mutex and a condition variable that keeps the lists of its sleeping and its woken threads.
use poski.Base.{
  if◌then◌else◌, Bool-cases, ℕ, suc, ◌+◌, ◌<◌, ◌≤◌, ◌≡◌, ◌≢◌, ◌⊎◌, refl, ap, inl, inr, Option, none,
  some, List, [], ◌∷◌, length, arith, ◌==◌, eq→==, ne→==,
}
use poski.RingPthread.Monitor.{Monitor}
use poski.RingPthread.Condvar.{Condvar}

abbrev pub count : ℕ → List ℕ → ℕ
count i [] = 0
count i (x ∷ l) = (if i == x then 1 else 0) + count i l

pub record Cond : Type 0 where
  pub owner : Option ℕ
  pub depth : ℕ
  pub asleep : List ℕ
  pub woken : List ℕ
  -- No thread is in the lists twice.
  pub unique : (i : ℕ) → count i asleep + count i woken ≤ 1

abbrev pub free : Cond
free = record { owner = none; depth = 0; asleep = []; woken = []; unique = λ i. omega arith }

-- A recursive mutex.
pub data Locking (t : ℕ) (m : Cond) : Cond → Type 0 where
  first : m.owner ≡ none → Locking t m (record m { owner = some t; depth = 1 })
  again : m.owner ≡ some t → Locking t m (record m { depth = m.depth + 1 })

pub data Unlocking (t : ℕ) (m : Cond) : Cond → Type 0 where
  last : m.depth ≡ 1 → Unlocking t m (record m { owner = none; depth = 0 })
  nested : (n : ℕ) → m.depth ≡ suc (suc n) → Unlocking t m (record m { depth = suc n })

-- A signal wakes the thread that fell asleep last.
pub data Signalling (t : ℕ) (m : Cond) : Cond → Type 0 where
  nobody : m.asleep ≡ [] → Signalling t m m
  somebody :
      (i : ℕ) (l : List ℕ)
      → m.asleep ≡ i ∷ l
      → (u : (j : ℕ) → count j l + count j (i ∷ m.woken) ≤ 1)
      → Signalling t m (record m { asleep = l; woken = i ∷ m.woken; unique = u })

pub data Waiting (t : ℕ) (m : Cond) : Cond → Type 0 where
  sleeps :
      (u : (j : ℕ) → count j (t ∷ m.asleep) + count j m.woken ≤ 1)
      → Waiting t m (record m { owner = none; depth = 0; asleep = t ∷ m.asleep; unique = u })

pub data Waking (t : ℕ) (m : Cond) : Cond → Type 0 where
  signalled :
      (l : List ℕ)
      → m.owner ≡ none
      → m.woken ≡ t ∷ l
      → (u : (j : ℕ) → count j m.asleep + count j l ≤ 1)
      → Waking t m (record m { owner = some t; depth = 1; woken = l; unique = u })
  spurious :
      (l : List ℕ)
      → m.owner ≡ none
      → m.asleep ≡ t ∷ l
      → (u : (j : ℕ) → count j l + count j m.woken ≤ 1)
      → Waking t m (record m { owner = some t; depth = 1; asleep = l; unique = u })

pub lock_lem :
    (t : ℕ) (m m' : Cond)
    → Locking t m m'
    → ((m.owner ≡ none) × (m'.owner ≡ some t) × (m'.depth ≡ 1))
      ⊎ ((m.owner ≡ some t) × (m'.owner ≡ some t) × (m'.depth ≡ m.depth + 1))
lock_lem t m _ (first e) = inl (e, refl, refl)
lock_lem t m _ (again e) = inr (e, e, refl)

pub unlock_lem :
    (t : ℕ) (m m' : Cond) → Unlocking t m m' → m.owner ≡ some t → m.depth ≡ 1 → m'.owner ≡ none
unlock_lem t m _ (last e) o d = refl
unlock_lem t m _ (nested n e) o d = absurd (omega arith)

pub signal_lem :
    (t : ℕ) (m m' : Cond) → Signalling t m m' → (m'.owner ≡ m.owner) × (m'.depth ≡ m.depth)
signal_lem t m _ (nobody e) = (refl, refl)
signal_lem t m _ (somebody i l e u) = (refl, refl)

pub wait_lem :
    (t : ℕ) (m m' : Cond) → Waiting t m m' → m.owner ≡ some t → m.depth ≡ 1 → m'.owner ≡ none
wait_lem t m _ (sleeps u) o d = refl

pub wake_lem :
    (t : ℕ) (m m' : Cond) → Waking t m m' → (m.owner ≡ none) × (m'.owner ≡ some t) × (m'.depth ≡ 1)
wake_lem t m _ (signalled l o e u) = (o, refl, refl)
wake_lem t m _ (spurious l o e u) = (o, refl, refl)

abbrev pub monitor : Monitor
monitor = record {
  State = Cond;
  owner = λ m. m.owner;
  depth = λ m. m.depth;
  Lock = Locking;
  Unlock = Unlocking;
  Signal = Signalling;
  Wait = Waiting;
  Wake = Waking;
  lock_lem = lock_lem;
  unlock_lem = unlock_lem;
  signal_lem = signal_lem;
  wait_lem = wait_lem;
  wake_lem = wake_lem;
}

pub count-le : (i : ℕ) (l : List ℕ) → count i l ≤ length l
count-le i [] = omega arith
count-le i (x ∷ l) = elim (Bool-cases (i == x)) [
  | inl e ↦ rw e (omega (arith, count-le i l))
  | inr e ↦ rw e (omega (arith, count-le i l))
]

pub count-other : (t i : ℕ) (l k : List ℕ) → i ≢ t → l ≡ t ∷ k → count i l ≡ count i k
count-other t i l k ne e = rw (e, ne→== i t ne) (omega arith)

pub count_self : (t : ℕ) (l : List ℕ) → count t (t ∷ l) ≡ suc (count t l)
count_self t l = rw (eq→== t t refl) (omega arith)

abbrev pub Blocked : Cond → ℕ → Type 0
Blocked m i = 0 < count i m.asleep + count i m.woken

pub lock_same :
    (t : ℕ) (m m' : Cond) → Locking t m m' → (m'.asleep ≡ m.asleep) × (m'.woken ≡ m.woken)
lock_same t m _ (first e) = (refl, refl)
lock_same t m _ (again e) = (refl, refl)

pub unlock_same :
    (t : ℕ) (m m' : Cond) → Unlocking t m m' → (m'.asleep ≡ m.asleep) × (m'.woken ≡ m.woken)
unlock_same t m _ (last e) = (refl, refl)
unlock_same t m _ (nested n e) = (refl, refl)

pub signal_some :
    (t : ℕ) (m m' : Cond)
    → Signalling t m m'
    → 0 < length m.asleep
    → length m.woken < length m'.woken
signal_some t m _ (nobody e) h = absurd (omega (arith, h, ap (length {0}) e))
signal_some t m _ (somebody i l e u) h = omega arith

pub signal_none :
    (t : ℕ) (m m' : Cond) → Signalling t m m' → length m.asleep ≡ 0 → length m'.asleep ≡ 0
signal_none t m _ (nobody e) h = h
signal_none t m _ (somebody i l e u) h = absurd (omega (arith, h, ap (length {0}) e))

pub wait_woken : (t : ℕ) (m m' : Cond) → Waiting t m m' → length m'.woken ≡ length m.woken
wait_woken t m _ (sleeps u) = refl

pub wait_blocks : (t : ℕ) (m m' : Cond) → Waiting t m m' → Blocked m' t
wait_blocks t m _ (sleeps u) = omega (arith, count_self t m.asleep)

pub wake_counts :
    (t : ℕ) (m m' : Cond)
    → Waking t m m'
    → ((length m.woken ≡ suc (length m'.woken)) × (length m'.asleep ≡ length m.asleep))
      ⊎ ((length m.asleep ≡ suc (length m'.asleep)) × (length m'.woken ≡ length m.woken))
wake_counts t m _ (signalled l o e u) = inl (ap (length {0}) e, refl)
wake_counts t m _ (spurious l o e u) = inr (ap (length {0}) e, refl)

pub stays_signal : (t i : ℕ) (m m' : Cond) → Signalling t m m' → Blocked m i → Blocked m' i
stays_signal t i m _ (nobody e) h = h
stays_signal t i m _ (somebody j l e u) h = omega (arith, h, ap (count i) e)

pub stays_wait : (t i : ℕ) (m m' : Cond) → Waiting t m m' → Blocked m i → Blocked m' i
stays_wait t i m _ (sleeps u) h = omega (arith, h)

pub stays_wake : (t i : ℕ) (m m' : Cond) → Waking t m m' → i ≢ t → Blocked m i → Blocked m' i
stays_wake t i m _ (signalled l o e u) ne h = omega (arith, h, count-other t i m.woken l ne e)
stays_wake t i m _ (spurious l o e u) ne h = omega (arith, h, count-other t i m.asleep l ne e)

pub same-Blocked :
    (i : ℕ) (m m' : Cond)
    → (m'.asleep ≡ m.asleep) × (m'.woken ≡ m.woken)
    → Blocked m i
    → Blocked m' i
same-Blocked i m m' (a, w) h = omega (arith, h, ap (count i) a, ap (count i) w)

pub stays :
    (t i : ℕ) (m m' : Cond)
    → Locking t m m' ⊎ (Unlocking t m m' ⊎ (Signalling t m m' ⊎ (Waiting t m m' ⊎ Waking t m m')))
    → i ≢ t
    → Blocked m i
    → Blocked m' i
stays t i m m' (inl l) ne h = same-Blocked i m m' (lock_same t m m' l) h
stays t i m m' (inr (inl l)) ne h = same-Blocked i m m' (unlock_same t m m' l) h
stays t i m m' (inr (inr (inl g))) ne h = stays_signal t i m m' g h
stays t i m m' (inr (inr (inr (inl w)))) ne h = stays_wait t i m m' w h
stays t i m m' (inr (inr (inr (inr w)))) ne h = stays_wake t i m m' w ne h

abbrev pub condvar : Condvar monitor
condvar = record {
  Blocked = Blocked;
  asleep = λ m. length m.asleep;
  woken = λ m. length m.woken;
  counted = λ t m h. omega (arith, h, count-le t m.asleep, count-le t m.woken);
  lock_asleep = λ t m m' l. ap (length {0}) (lock_same t m m' l).0;
  lock_woken = λ t m m' l. ap (length {0}) (lock_same t m m' l).1;
  unlock_asleep = λ t m m' l. ap (length {0}) (unlock_same t m m' l).0;
  unlock_woken = λ t m m' l. ap (length {0}) (unlock_same t m m' l).1;
  signal_some = signal_some;
  signal_none = signal_none;
  wait_woken = wait_woken;
  wait_blocks = wait_blocks;
  wake_counts = wake_counts;
  stays = stays;
}
