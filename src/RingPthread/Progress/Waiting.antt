-- ===== src/RingPthread/Progress/Waiting.antt =====
-- RingPthread: the threads that wait on the condition variable are in `pthread_cond_wait`.
use native.Mathlib.Decide.{ℕ_discrete}
use poski.Base.{ℕ, ◌≡◌, ◌≢◌, ◌⊎◌, refl, sym, subst, inl, inr, none, some, eq→==, ne→==}
use poski.Ring
use poski.Ring.{Ring}
use poski.RingPthread.Monitor.{Monitor}
use poski.RingPthread.Condvar.{Condvar, Enabled}
use poski.RingPthread.Threads.{
  Pc, idle, put_begin, put_locked, put_pushed, put_signalled, get_begin, get_testing, get_waiting,
  get_ready, get_copied, get_leaving, size_begin, size_locked, size_leaving, update, System, goes,
  Step, call_put, lock_put, push, signal, unlock_put, call_get, lock_get, wait, wake, proceed, copy,
  no_item, pop, unlock_get, call_size, lock_size, read_size, unlock_size, Reach, start, later,
}

abbrev pub IsWaiting : Pc → Type 0
IsWaiting p = (tmo : ℕ) × (p ≡ get_waiting tmo)

module _ (M : Monitor) (C : Condvar M) (E : Enabled M C) where
  open M use {State, Lock, Unlock, Signal, Wait, Wake}
  open C use {Blocked}
  open E use {quiet, only_self, ends}

  abbrev pub AllWaiting : System M → Type 0
  AllWaiting s = (i : ℕ) → Blocked s.mon i → IsWaiting (s.pc i)

  -- A step of thread `t` to `p`, in which no other thread becomes blocked.
  AllWaiting-update :
      (s : System M) (t : ℕ) (p : Pc) (m : State)
      → ((i : ℕ) → i ≢ t → Blocked m i → Blocked s.mon i)
      → (Blocked m t → IsWaiting p)
      → AllWaiting s
      → (i : ℕ) → Blocked m i
      → IsWaiting (update s.pc t p i)
  AllWaiting-update s t p m keep own all i b = elim (ℕ_discrete i t) [
    | yes e ↦
        subst (λ j. IsWaiting (update s.pc t p j)) (sym e)
          (rw (eq→== t t refl) (own (subst (Blocked m) e b)))
    | no ne ↦ rw (ne→== t i (λ q. ne (sym q))) (all i (keep i ne b))
  ]

  module _ (s : System M) (all : AllWaiting s) (t : ℕ) where
    -- A thread that is not waiting is not blocked.
    unblocked : {p : Pc} → s.pc t ≡ p → ¬ IsWaiting p → ¬ Blocked s.mon t
    unblocked e out b = out (subst IsWaiting e (all t b))

    moves-AllWaiting : {p : Pc} (p' : Pc) → s.pc t ≡ p → ¬ IsWaiting p → AllWaiting (goes M s t p')
    moves-AllWaiting p' e out =
        AllWaiting-update s t p' s.mon (λ i ne b. b) (λ b. absurd (unblocked e out b)) all

    calls-AllWaiting :
        {p : Pc} (p' : Pc) (m : State)
        → s.pc t ≡ p
        → ¬ IsWaiting p
        → Lock t s.mon m ⊎ (Unlock t s.mon m ⊎ Signal t s.mon m)
        → AllWaiting (goes M (record s { mon = m }) t p')
    calls-AllWaiting p' m e out call =
        AllWaiting-update s t p' m (λ i ne b. quiet t i s.mon m call b)
          (λ b. absurd (unblocked e out (quiet t t s.mon m call b))) all

  Step-AllWaiting : {s u : System M} → Step M s u → AllWaiting s → AllWaiting u
  Step-AllWaiting {s} (call_put t item e n) all =
      moves-AllWaiting s all t (put_begin item) e (λ w. cc)
  Step-AllWaiting {s} (lock_put t item m e l) all =
      calls-AllWaiting s all t (put_locked item) m e (λ w. cc) (inl l)
  Step-AllWaiting {s} (push t item r e h) all = moves-AllWaiting s all t put_pushed e (λ w. cc)
  Step-AllWaiting {s} (signal t m e g) all =
      calls-AllWaiting s all t put_signalled m e (λ w. cc) (inr (inr g))
  Step-AllWaiting {s} (unlock_put t m e l) all =
      calls-AllWaiting s all t idle m e (λ w. cc) (inr (inl l))
  Step-AllWaiting {s} (call_get t tmo e) all = moves-AllWaiting s all t (get_begin tmo) e (λ w. cc)
  Step-AllWaiting {s} (lock_get t tmo m e l) all =
      calls-AllWaiting s all t (get_testing tmo) m e (λ w. cc) (inl l)
  Step-AllWaiting {s} (wait t tmo m e _ z w) all =
      AllWaiting-update s t (get_waiting tmo) m (λ i ne b. only_self t i s.mon m (inl w) ne b)
        (λ b. (tmo, refl)) all
  Step-AllWaiting {s} (wake t tmo m e w) all =
      AllWaiting-update s t (get_testing tmo) m (λ i ne b. only_self t i s.mon m (inr w) ne b)
        (λ b. absurd (ends t s.mon m w b)) all
  Step-AllWaiting {s} (proceed t tmo e c) all = moves-AllWaiting s all t (get_ready tmo) e (λ w. cc)
  Step-AllWaiting {s} (copy t tmo off e ne f) all =
      moves-AllWaiting s all t (get_copied tmo (Ring.item_at s.ring off)) e (λ w. cc)
  Step-AllWaiting {s} (no_item t tmo e z) all =
      moves-AllWaiting s all t (get_leaving tmo none) e (λ w. cc)
  Step-AllWaiting {s} (pop t tmo item r e h) all =
      moves-AllWaiting s all t (get_leaving tmo (some item)) e (λ w. cc)
  Step-AllWaiting {s} (unlock_get t tmo result m e l) all =
      calls-AllWaiting s all t idle m e (λ w. cc) (inr (inl l))
  Step-AllWaiting {s} (call_size t e) all = moves-AllWaiting s all t size_begin e (λ w. cc)
  Step-AllWaiting {s} (lock_size t m e l) all =
      calls-AllWaiting s all t size_locked m e (λ w. cc) (inl l)
  Step-AllWaiting {s} (read_size t e) all =
      moves-AllWaiting s all t (size_leaving (Ring.size s.ring)) e (λ w. cc)
  Step-AllWaiting {s} (unlock_size t n m e l) all =
      calls-AllWaiting s all t idle m e (λ w. cc) (inr (inl l))

  pub Reach-AllWaiting :
      {r : Ring} {m : State} {s : System M}
      → ((i : ℕ) → ¬ Blocked m i)
      → Reach M r m s
      → AllWaiting s
  Reach-AllWaiting nobody start = λ i b. absurd (nobody i b)
  Reach-AllWaiting nobody (later r st) = Step-AllWaiting st (Reach-AllWaiting nobody r)
