-- ===== src/RingPthread/Wakeup/Blocked.antt =====
-- RingPthread and the condition variable: the threads that the program has in `pthread_cond_wait`.
use poski.Base.{ℕ, ◌⊎◌, inl, inr, none, some}
use poski.Ring
use poski.Ring.{Ring}
use poski.RingPthread.Monitor.{Monitor}
use poski.RingPthread.Condvar.{Condvar}
use poski.RingPthread.Threads.{
  Pc, idle, put_begin, put_locked, put_pushed, put_signalled, get_begin, get_testing, get_waiting,
  get_ready, get_copied, get_leaving, size_begin, size_locked, size_leaving, System, goes, Step,
  call_put, lock_put, push, signal, unlock_put, call_get, lock_get, wait, wake, proceed, copy,
  no_item, pop, unlock_get, call_size, lock_size, read_size, unlock_size, Reach, start, later,
}
use poski.RingPthread.Wakeup.Credit.{Waits, Waits-update}

module _ (M : Monitor) (C : Condvar M) where
  open M use {State, Lock, Unlock, Signal, Wait, Wake}
  open C use {Blocked, stays, wait_blocks}

  -- Each thread that the program has in `pthread_cond_wait` is one that waits on the variable.
  abbrev pub AllBlocked : System M → Type 0
  AllBlocked s = (i : ℕ) → Waits (s.pc i) (Blocked s.mon i)

  module _ (s : System M) (all : AllBlocked s) (t : ℕ) where
    goes-AllBlocked : (p : Pc) → Waits p (Blocked s.mon t) → AllBlocked (goes M s t p)
    goes-AllBlocked p own = Waits-update s.pc t p (λ i ne h. h) own all

    calls-AllBlocked :
        (p : Pc) (m : State)
        → Lock t s.mon m
          ⊎ (Unlock t s.mon m ⊎ (Signal t s.mon m ⊎ (Wait t s.mon m ⊎ Wake t s.mon m)))
        → Waits p (Blocked m t)
        → AllBlocked (goes M (record s { mon = m }) t p)
    calls-AllBlocked p m call own =
        Waits-update s.pc t p (λ i ne h. stays t i s.mon m call ne h) own all

  Step-AllBlocked : {s u : System M} → Step M s u → AllBlocked s → AllBlocked u
  Step-AllBlocked {s} (call_put t item e n) all = goes-AllBlocked s all t (put_begin item) tt
  Step-AllBlocked {s} (lock_put t item m e l) all =
      calls-AllBlocked s all t (put_locked item) m (inl l) tt
  Step-AllBlocked {s} (push t item r e h) all = goes-AllBlocked s all t put_pushed tt
  Step-AllBlocked {s} (signal t m e g) all =
      calls-AllBlocked s all t put_signalled m (inr (inr (inl g))) tt
  Step-AllBlocked {s} (unlock_put t m e l) all = calls-AllBlocked s all t idle m (inr (inl l)) tt
  Step-AllBlocked {s} (call_get t tmo e) all = goes-AllBlocked s all t (get_begin tmo) tt
  Step-AllBlocked {s} (lock_get t tmo m e l) all =
      calls-AllBlocked s all t (get_testing tmo) m (inl l) tt
  Step-AllBlocked {s} (wait t tmo m e _ z w) all =
      calls-AllBlocked s all t (get_waiting tmo) m (inr (inr (inr (inl w))))
        (wait_blocks t s.mon m w)
  Step-AllBlocked {s} (wake t tmo m e w) all =
      calls-AllBlocked s all t (get_testing tmo) m (inr (inr (inr (inr w)))) tt
  Step-AllBlocked {s} (proceed t tmo e c) all = goes-AllBlocked s all t (get_ready tmo) tt
  Step-AllBlocked {s} (copy t tmo off e ne f) all =
      goes-AllBlocked s all t (get_copied tmo (Ring.item_at s.ring off)) tt
  Step-AllBlocked {s} (no_item t tmo e z) all = goes-AllBlocked s all t (get_leaving tmo none) tt
  Step-AllBlocked {s} (pop t tmo item r e h) all =
      goes-AllBlocked s all t (get_leaving tmo (some item)) tt
  Step-AllBlocked {s} (unlock_get t tmo result m e l) all =
      calls-AllBlocked s all t idle m (inr (inl l)) tt
  Step-AllBlocked {s} (call_size t e) all = goes-AllBlocked s all t size_begin tt
  Step-AllBlocked {s} (lock_size t m e l) all = calls-AllBlocked s all t size_locked m (inl l) tt
  Step-AllBlocked {s} (read_size t e) all =
      goes-AllBlocked s all t (size_leaving (Ring.size s.ring)) tt
  Step-AllBlocked {s} (unlock_size t n m e l) all = calls-AllBlocked s all t idle m (inr (inl l)) tt

  pub Reach-AllBlocked : {r : Ring} {m : State} {s : System M} → Reach M r m s → AllBlocked s
  Reach-AllBlocked start = λ i. tt
  Reach-AllBlocked (later r st) = Step-AllBlocked st (Reach-AllBlocked r)
