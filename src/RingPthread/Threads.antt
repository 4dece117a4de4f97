-- ===== src/RingPthread/Threads.antt =====
-- `RingPthread::put`, `get` and `size` run by any number of threads, a statement at a time, interleaved in
-- any order.
use poski.Base.{
  ℕ, ◌≡◌, ◌≢◌, ◌⊎◌, Bool, true, false, Option, none, some, List, [], ◌∷◌, ◌++◌, length, ◌==◌,
  if◌then◌else◌, done,
}
use poski.Ring
use poski.Ring.{Ring}
use poski.RingPthread.Monitor.{Monitor}

-- Where a thread stands, with the arguments and locals that are live there.
pub data Pc : Type 0 where
  idle : Pc
  put_begin : (item : List ℕ) → Pc  -- before `pthread_mutex_lock` of `put`
  put_locked : (item : List ℕ) → Pc  -- before `push_back`
  put_pushed : Pc  -- before `pthread_cond_signal`
  put_signalled : Pc  -- before `pthread_mutex_unlock`
  get_begin : (tmo : ℕ) → Pc  -- before `pthread_mutex_lock` of `get`
  get_testing : (tmo : ℕ) → Pc  -- before `if (tmo)`, and before each test of its loop
  get_waiting : (tmo : ℕ) → Pc  -- in `pthread_cond_wait`
  get_ready : (tmo : ℕ) → Pc  -- before `if (super_t::size() != 0)`
  get_copied : (tmo : ℕ) (item : List ℕ) → Pc  -- after `memcpy`, before `pop_front`
  get_leaving : (tmo : ℕ) (result : Option (List ℕ)) → Pc  -- before `pthread_mutex_unlock`
  size_begin : Pc  -- before `pthread_mutex_lock` of `size`
  size_locked : Pc  -- before `super_t::size()`
  size_leaving : (n : ℕ) → Pc  -- before `pthread_mutex_unlock`

-- Between the return of `pthread_mutex_lock` or `pthread_cond_wait` and the next release.
abbrev pub critical : Pc → Bool
critical idle = false
critical (put_begin _) = false
critical (get_begin _) = false
critical (get_waiting _) = false
critical size_begin = false
critical _ = true

abbrev pub update {ℓ} : {A : Type ℓ} → (ℕ → A) → ℕ → A → ℕ → A
update f t a i = if t == i then a else f i

module _ (M : Monitor) where
  open M use {State, Lock, Unlock, Signal, Wait, Wake}

  -- `sent` and `received` record the items pushed and popped so far; the program has no such state.
  pub record System : Type 0 where
    pub ring : Ring
    pub mon : State
    pub pc : ℕ → Pc
    pub sent : List (List ℕ)
    pub received : List (List ℕ)

  abbrev pub goes : System → ℕ → Pc → System
  goes s t p = record s { pc = update s.pc t p }

  -- A step of thread `t`. A push to a full ring fails its assertion: there is no step from there.
  pub data Step (s : System) : System → Type 0 where
    call_put :
        (t : ℕ) (item : List ℕ)
        → s.pc t ≡ idle
        → length item ≡ s.ring.item_size
        → Step s (goes s t (put_begin item))
    lock_put :
        (t : ℕ) (item : List ℕ) (m : State)
        → s.pc t ≡ put_begin item
        → Lock t s.mon m
        → Step s (goes (record s { mon = m }) t (put_locked item))
    push :
        (t : ℕ) (item : List ℕ) (r : Ring)
        → s.pc t ≡ put_locked item
        → Ring.push_back s.ring item ≡ done r
        → Step s (goes (record s { ring = r; sent = s.sent ++ item ∷ [] }) t put_pushed)
    signal :
        (t : ℕ) (m : State)
        → s.pc t ≡ put_pushed
        → Signal t s.mon m
        → Step s (goes (record s { mon = m }) t put_signalled)
    unlock_put :
        (t : ℕ) (m : State)
        → s.pc t ≡ put_signalled
        → Unlock t s.mon m
        → Step s (goes (record s { mon = m }) t idle)
    call_get : (t tmo : ℕ) → s.pc t ≡ idle → Step s (goes s t (get_begin tmo))
    lock_get :
        (t tmo : ℕ) (m : State)
        → s.pc t ≡ get_begin tmo
        → Lock t s.mon m
        → Step s (goes (record s { mon = m }) t (get_testing tmo))
    wait :
        (t tmo : ℕ) (m : State)
        → s.pc t ≡ get_testing tmo
        → tmo ≢ 0
        → Ring.size s.ring ≡ 0
        → Wait t s.mon m
        → Step s (goes (record s { mon = m }) t (get_waiting tmo))
    wake :
        (t tmo : ℕ) (m : State)
        → s.pc t ≡ get_waiting tmo
        → Wake t s.mon m
        → Step s (goes (record s { mon = m }) t (get_testing tmo))
    proceed :
        (t tmo : ℕ)
        → s.pc t ≡ get_testing tmo
        → (tmo ≡ 0) ⊎ (Ring.size s.ring ≢ 0)
        → Step s (goes s t (get_ready tmo))
    copy :
        (t tmo off : ℕ)
        → s.pc t ≡ get_ready tmo
        → Ring.size s.ring ≢ 0
        → Ring.front s.ring ≡ some off
        → Step s (goes s t (get_copied tmo (Ring.item_at s.ring off)))
    no_item :
        (t tmo : ℕ)
        → s.pc t ≡ get_ready tmo
        → Ring.size s.ring ≡ 0
        → Step s (goes s t (get_leaving tmo none))
    pop :
        (t tmo : ℕ) (item : List ℕ) (r : Ring)
        → s.pc t ≡ get_copied tmo item
        → Ring.pop_front s.ring ≡ done r
        → Step s (
            goes
              (record s { ring = r; received = s.received ++ item ∷ [] })
              t
              (get_leaving tmo (some item)))
    unlock_get :
        (t tmo : ℕ) (result : Option (List ℕ)) (m : State)
        → s.pc t ≡ get_leaving tmo result
        → Unlock t s.mon m
        → Step s (goes (record s { mon = m }) t idle)
    call_size : (t : ℕ) → s.pc t ≡ idle → Step s (goes s t size_begin)
    lock_size :
        (t : ℕ) (m : State)
        → s.pc t ≡ size_begin
        → Lock t s.mon m
        → Step s (goes (record s { mon = m }) t size_locked)
    read_size : (t : ℕ) → s.pc t ≡ size_locked → Step s (goes s t (size_leaving (Ring.size s.ring)))
    unlock_size :
        (t n : ℕ) (m : State)
        → s.pc t ≡ size_leaving n
        → Unlock t s.mon m
        → Step s (goes (record s { mon = m }) t idle)

  -- From a fresh object with a free mutex, no thread being in a call.
  pub data Reach (r : Ring) (m : State) : System → Type 0 where
    start : Reach r m (record { ring = r; mon = m; pc = λ _. idle; sent = []; received = [] })
    later : {s u : System} → Reach r m s → Step s u → Reach r m u
