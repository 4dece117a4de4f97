-- ===== src/RingPthread/Tests/Wakeup.antt =====
-- A consumer waits on an empty ring, and a producer signals it.
use poski.Base.{
  memcpy, ℕ, ◌+◌, ◌<◌, ◌≤◌, ◌≡◌, ◌≢◌, ◌⊎◌, refl, ap, none, some, [], ◌∷◌, ◌++◌, length, arith,
}
use poski.Ring.{size, push_back}
use poski.Ring.Refine.{contents}
use poski.RingPthread.Progress.{Advances, Aborts, no_deadlock}
use poski.RingPthread.Progress.Waiting.{IsWaiting}
use poski.RingPthread.Threads.{
  idle, put_begin, put_locked, put_pushed, put_signalled, get_begin, get_testing, get_waiting,
  System, goes, call_put, lock_put, push, signal, unlock_put, call_get, lock_get, wait, Reach,
  start, later,
}
use poski.RingPthread.Wakeup.{waiting-woken}
use poski.RingPthread.Tests.{ring, filled, message, ring-IsValid, contents-ring}
use poski.RingPthread.Tests.Sleepers.{
  Cond, condvar, count, count-le, free, monitor, first, last, somebody, sleeps,
}
use poski.RingPthread.Tests.Wakeable.{enabled}

once : (j : ℕ) → count j (0 ∷ []) + count j [] ≤ 1
once j = omega (arith, count-le j (0 ∷ []))

woken_once : (j : ℕ) → count j [] + count j (0 ∷ []) ≤ 1
woken_once j = omega (arith, count-le j (0 ∷ []))

abbrev held : ℕ → Cond → Cond
held t m = record m { owner = some t; depth = 1 }

abbrev released : Cond → Cond
released m = record m { owner = none; depth = 0 }

abbrev initial : System monitor
initial = record { ring = ring; mon = free; pc = λ _. idle; sent = []; received = [] }

abbrev entered : System monitor
entered =
    goes monitor (record (goes monitor initial 0 (get_begin 5)) { mon = held 0 free }) 0
      (get_testing 5)

abbrev sleeping : Cond
sleeping = record { owner = none; depth = 0; asleep = 0 ∷ []; woken = []; unique = once }

abbrev waiting : System monitor
waiting = goes monitor (record entered { mon = sleeping }) 0 (get_waiting 5)

waiting-Reach : Reach monitor ring free waiting
unfolding size
waiting-Reach =
    later (later (later start (call_get 0 5 refl)) (lock_get 0 5 (held 0 free) refl (first refl)))
      (wait 0 5 sleeping refl (omega arith) refl (sleeps once))

abbrev signal_sent : Cond
signal_sent = record { owner = some 1; depth = 1; asleep = []; woken = 0 ∷ []; unique = woken_once }

abbrev pushed : System monitor
pushed =
    goes monitor
      (record (goes monitor
        (record (goes monitor waiting 1 (put_begin message)) { mon = held 1 sleeping }) 1
        (put_locked message)) { ring = filled; sent = [] ++ message ∷ [] })
      1 put_pushed

-- Thread 0 waits, thread 1 has put a message and gone.
abbrev put_done : System monitor
put_done =
    goes monitor
      (record (goes monitor (record pushed { mon = signal_sent }) 1 put_signalled) {
        mon = released signal_sent;
      })
      1 idle

put_done-Reach : Reach monitor ring free put_done
unfolding push_back memcpy
put_done-Reach =
    later
      (later
        (later
          (later (later waiting-Reach (call_put 1 message refl refl))
            (lock_put 1 message (held 1 sleeping) refl (first refl)))
          (push 1 message filled refl refl))
        (signal 1 signal_sent refl (somebody 0 [] refl woken_once)))
      (unlock_put 1 (released signal_sent) refl (last refl))

waiting-woken_example : (◌<◌ 0 1) × (◌<◌ 0 0 → length (contents filled) ≤ 1)
unfolding size
waiting-woken_example =
    waiting-woken monitor condvar ring-IsValid contents-ring refl put_done-Reach 0 5 refl refl
      some_items
  where
    some_items : contents filled ≢ []
    some_items h = absurd (omega (arith, ap (length {0}) h))

-- Thread 0 waits, the mutex is free, and the ring holds the message.
no_deadlock_example :
    Advances monitor put_done
    ⊎ (Aborts monitor put_done ⊎ (IsWaiting (get_waiting 5) × (contents filled ≡ [])))
no_deadlock_example =
    no_deadlock monitor condvar enabled ring-IsValid contents-ring refl (λ i h. omega (arith, h))
      put_done-Reach 0 (λ h. cc)
