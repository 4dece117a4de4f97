-- ===== src/RingPthread/Tests.antt =====
-- RingPthread on concrete objects: a mutex and condition variable, and a run in which a consumer
-- waits for a producer.
mod Sleepers
mod Wakeable
mod Wakeup
use poski.Base.{
  ℕ, ◌+◌, ◌≡◌, ap, ◌⊎◌, inl, inr, refl, none, some, Option, List, [], ◌∷◌, ◌++◌, arith, done,
  blocked, replicate, memcpy, Ensures, ◌==◌, if◌then◌else◌,
}
use poski.Ring.{Ring, size, push_back, pop_front, front, item_at}
use poski.Ring.Invariant.{IsValid, Keeps}
use poski.Ring.Refine.{contents}
use poski.Ring.Create.{fresh, fresh-IsValid}
use poski.RingPthread.{get}
use poski.RingPthread.Spec.{get_fifo, view, Kept, get_refines}
use poski.RingPthread.Monitor.{Monitor}
use poski.RingPthread.Threads.{
  idle, put_begin, put_locked, put_pushed, put_signalled, get_begin, get_testing, get_waiting,
  get_ready, get_copied, get_leaving, System, goes, call_put, lock_put, push, signal, unlock_put,
  call_get, lock_get, wait, wake, proceed, copy, no_item, Reach, start, later,
}
use poski.RingPthread.Safety.{mutual_exclusion, sent-received, copied-pop, leaving_none-poll}

-- A recursive mutex is its owner and how often it is locked. A wait may end at any time.
record Mutex : Type 0 where
  owner : Option ℕ
  depth : ℕ

abbrev free : Mutex
free = record { owner = none; depth = 0 }

abbrev held : ℕ → ℕ → Mutex
held t n = record { owner = some t; depth = n }

abbrev Lock : ℕ → Mutex → Mutex → Type 0
Lock t m m' = ((m ≡ free) × (m' ≡ held t 1)) ⊎ ((n : ℕ) × (m ≡ held t n) × (m' ≡ held t (n + 1)))

abbrev Unlock : ℕ → Mutex → Mutex → Type 0
Unlock t m m' = (n : ℕ) × (m ≡ held t (n + 1)) × (m' ≡ (if n == 0 then free else held t n))

lock_lem :
    (t : ℕ) (m m' : Mutex)
    → Lock t m m'
    → ((m.owner ≡ none) × (m'.owner ≡ some t) × (m'.depth ≡ 1))
      ⊎ ((m.owner ≡ some t) × (m'.owner ≡ some t) × (m'.depth ≡ m.depth + 1))
lock_lem t m m' h = ground arith

unlock_lem :
    (t : ℕ) (m m' : Mutex) → Unlock t m m' → m.owner ≡ some t → m.depth ≡ 1 → m'.owner ≡ none
unlock_lem t m m' h o d = ground arith

abbrev pthread : Monitor
pthread = record {
  State = Mutex;
  owner = λ m. m.owner;
  depth = λ m. m.depth;
  Lock = Lock;
  Unlock = Unlock;
  Signal = λ t m m'. m' ≡ m;
  Wait = λ t m m'. (m ≡ held t 1) × (m' ≡ free);
  Wake = λ t m m'. (m ≡ free) × (m' ≡ held t 1);
  lock_lem = lock_lem;
  unlock_lem = unlock_lem;
  signal_lem = λ t m m' h. (ap (λ (x : Mutex). x.owner) h, ap (λ (x : Mutex). x.depth) h);
  wait_lem = λ t m m' h o d. ap (λ (x : Mutex). x.owner) h.1;
  wake_lem = λ t m m' h. (
    ap (λ (x : Mutex). x.owner) h.0,
    ap (λ (x : Mutex). x.owner) h.1,
    ap (λ (x : Mutex). x.depth) h.1,
  );
}

abbrev pub ring : Ring
ring = fresh (replicate 4 0) 2 2

abbrev pub message : List ℕ
message = 7 ∷ 8 ∷ []

abbrev pub filled : Ring
filled = record ring { buffer = 7 ∷ 8 ∷ 0 ∷ 0 ∷ []; write_index = 1 }

pub ring-IsValid : IsValid ring
ring-IsValid = (fresh-IsValid (replicate 4 0) 2 2 (omega arith) (omega arith) refl (1, refl)).0

abbrev initial : System pthread
initial = record { ring = ring; mon = free; pc = λ _. idle; sent = []; received = [] }

pub contents-ring : contents ring ≡ []
unfolding size
contents-ring = refl

filled-IsValid : IsValid filled
unfolding size
filled-IsValid = record {
  width = 1;
  width_le = omega arith;
  power = refl;
  small_item = omega arith;
  sized = refl;
  read_lt = omega arith;
  write_lt = omega arith;
  size_le = omega arith;
}

-- Thread 0 calls `get` with a timeout of 5 on the empty ring, and waits.
abbrev waiting : System pthread
waiting =
    goes pthread
      (record (goes pthread (record (goes pthread initial 0 (get_begin 5)) { mon = held 0 1 }) 0
        (get_testing 5)) { mon = free })
      0 (get_waiting 5)

waiting-Reach : Reach pthread ring free waiting
unfolding size
waiting-Reach =
    later
      (later (later start (call_get 0 5 refl)) (lock_get 0 5 (held 0 1) refl (inl (refl, refl))))
      (wait 0 5 free refl (omega arith) refl (refl, refl))

-- Thread 1 puts a message.
abbrev put_done : System pthread
put_done =
    goes pthread
      (record (goes pthread
        (record (goes pthread
          (record (goes pthread
            (record (goes pthread waiting 1 (put_begin message)) { mon = held 1 1 }) 1
            (put_locked message)) { ring = filled; sent = [] ++ message ∷ [] })
          1 put_pushed) { mon = held 1 1 })
        1 put_signalled) { mon = free })
      1 idle

put_done-Reach : Reach pthread ring free put_done
unfolding push_back memcpy
put_done-Reach =
    later
      (later
        (later
          (later (later waiting-Reach (call_put 1 message refl refl))
            (lock_put 1 message (held 1 1) refl (inl (refl, refl))))
          (push 1 message filled refl refl))
        (signal 1 (held 1 1) refl refl))
      (unlock_put 1 free refl (0, refl, refl))

-- Thread 0 wakes up, and copies it.
abbrev copied : System pthread
copied =
    goes pthread
      (goes pthread (goes pthread (record put_done { mon = held 0 1 }) 0 (get_testing 5)) 0
        (get_ready 5))
      0 (get_copied 5 message)

copied-Reach : Reach pthread ring free copied
unfolding size front item_at
copied-Reach =
    later
      (later (later put_done-Reach (wake 0 5 (held 0 1) refl (refl, refl)))
        (proceed 0 5 refl (inr (omega arith))))
      (copy 0 5 0 refl (omega arith) refl)

-- Thread 2 polls the empty ring.
abbrev polled : System pthread
polled =
    goes pthread
      (goes pthread
        (goes pthread (record (goes pthread initial 2 (get_begin 0)) { mon = held 2 1 }) 2
          (get_testing 0))
        2 (get_ready 0))
      2 (get_leaving 0 none)

polled-Reach : Reach pthread ring free polled
unfolding size
polled-Reach =
    later
      (later
        (later (later start (call_get 2 0 refl)) (lock_get 2 0 (held 2 1) refl (inl (refl, refl))))
        (proceed 2 0 refl (inl refl)))
      (no_item 2 0 refl refl)

get_waits : get ring 5 ≡ blocked
unfolding get size
get_waits = refl

get_refines_example :
    (view (get filled 5) ≡ get_fifo (contents filled) 5) × Ensures (Kept filled) (get filled 5)
get_refines_example = get_refines 5 filled-IsValid

mutual_exclusion_example : ◌≡◌ {A = ℕ} 0 0
mutual_exclusion_example =
    mutual_exclusion pthread ring-IsValid contents-ring refl copied-Reach 0 0 refl refl

sent-received_example : copied.sent ≡ [] ++ contents filled
sent-received_example = sent-received pthread ring-IsValid contents-ring refl copied-Reach

copied-pop_example :
    (r' : Ring) × (pop_front filled ≡ done r')
    × (contents filled ≡ message ∷ contents r')
    × Keeps filled r'
copied-pop_example =
    copied-pop pthread ring-IsValid contents-ring refl copied-Reach 0 5 message refl

leaving_none-poll_example : ◌≡◌ {A = ℕ} 0 0
leaving_none-poll_example =
    leaving_none-poll pthread ring-IsValid contents-ring refl polled-Reach 2 0 refl
