-- ===== src/Posix/Apple/Laws.antt =====
-- The timeout of a take, and a timer that is started again, in the branches for Apple's systems of
-- targets/posix.
use poski.Base.{
  ℕ, suc, ◌*◌, ◌≤◌, ◌≡◌, refl, ◌∙◌, Bool, true, some, ℤ, pos, ◌==ℤ◌, ne→==ℤ, if◌then◌else◌, ◌+◌,
  ◌^◌, ◌%◌, false, assert_failed, done, Ensures, Ensures-then,
}
use poski.Osal.ErrorCode.{ok, timeout, is_ok}
use poski.Osal.Semaphore.{Semaphore, Takes, Gives}
use poski.Osal.Mutex.{Locks}
use poski.Posix.Mutex
use poski.Posix.Mutex.{MutexApi}
use poski.Posix.Mutex.Laws.{mapped-Locks}
use poski.Posix.Time.{time_forever}
use poski.Posix.Timer.{Timer}
use poski.Posix.Apple.{
  pos_timer_init, pos_timer_cb, SemApi, pos_mutex_lock, pos_sem_take, pos_sem_give, TimerApi,
  pos_timer_start, pos_timer_stop,
}

module _ (A : SemApi) where
  open A use {State, tokens, now, semaphore_wait, wait_lem, wait_past, signal_lem}

  -- A take takes a token exactly if it ends with POS_OK, and a give adds one.
  pub apple_take-Takes :
      (tmo : ℕ) (s : State) → Ensures (Takes tokens (tokens s)) (pos_sem_take A tmo s)
  unfolding pos_sem_take
  apple_take-Takes tmo s =
      Ensures-then {A = ℤ × State} _ (Takes tokens (tokens s)) (semaphore_wait tmo s) _
        (wait_lem tmo s) (λ p t. either (p.0 ==ℤ pos 0) (tokens s) (tokens p.1) t)
    where
      either :
          (b : Bool) (n n' : ℕ)
          → n ≡ (if b then suc n' else n')
          → n ≡ (if is_ok (if b then ok else timeout) then suc n' else n')
      either true n n' t = t
      either false n n' t = t

  pub apple_give-Gives : (s : State) → Ensures (Gives tokens (tokens s)) (pos_sem_give A s)
  unfolding pos_sem_give
  apple_give-Gives s = signal_lem s

  abbrev pub apple_semaphore : Semaphore
  apple_semaphore = record {
    State = State;
    tokens = tokens;
    take = pos_sem_take A;
    give = pos_sem_give A;
    take_lem = apple_take-Takes;
    give_lem = apple_give-Gives;
  }

  -- A take with a timeout below the dispatch time that finds no token returns POS_TIMEOUT without
  -- waiting.
  pub take_past-timeout :
      (tmo : ℕ) (s : State)
      → tokens s ≡ 0
      → tmo ≤ now s
      → (s' : State) × (pos_sem_take A tmo s ≡ done (timeout, s'))
  unfolding pos_sem_take
  take_past-timeout tmo s none_left past =
      let (expired, s', w, ne) = wait_past tmo s none_left past in
      (s', rw (w, ne→==ℤ expired (pos 0) ne) refl)

module _ (A : TimerApi) where
  open A use {
    State, cancelled, suspended, source_create, set_timer, source_cancel, create_lem, cancel_lem,
    set_timer_lem, resume_lem, resume_again,
  }

  -- While its source is suspended, a start resumes it, and leaves it cancelled if it was.
  start-suspended :
      (t : Timer) (h ticks : ℕ) (s : State)
      → t.tm_timer ≡ some h
      → suspended h s ≡ true
      → (t' : Timer) × (s' : State) × (pos_timer_start A t ticks s ≡ done (ok, t', s'))
        × (t'.tm_timer ≡ some h)
        × (t'.tm_active ≡ true)
        × (suspended h s' ≡ false)
        × (cancelled h s' ≡ cancelled h s)
  unfolding pos_timer_start
  start-suspended t h ticks s e x =
      let (u, c) = set_timer_lem h (ticks * 1000) s in
      let (s', r, v, d) = resume_lem h (set_timer h (ticks * 1000) s) (u ∙ x) in
      (
        record t { tm_ticks = (A.clock s + ticks) % 2 ^ 64; tm_active = true },
        s',
        rw (e, r) refl,
        e,
        refl,
        v,
        d ∙ c,
      )

  -- Once it is not, a start ends the process.
  start-resumed :
      (t : Timer) (h ticks : ℕ) (s : State)
      → t.tm_timer ≡ some h
      → suspended h s ≡ false
      → pos_timer_start A t ticks s ≡ assert_failed
  unfolding pos_timer_start
  start-resumed t h ticks s e x =
      rw
        (
          e,
          resume_again h (set_timer h (ticks * 1000) s) ((set_timer_lem h (ticks * 1000) s).0 ∙ x),
        )
        refl

  stop-suspended :
      (t : Timer) (h : ℕ) (s : State)
      → t.tm_timer ≡ some h
      → let (e, t', s') = pos_timer_stop A t s in
        (t'.tm_timer ≡ some h) × (suspended h s' ≡ suspended h s) × (cancelled h s' ≡ true)
  unfolding pos_timer_stop
  stop-suspended t h s e = let (u, c) = cancel_lem h s in rw e (refl, u, c)

  -- A timer whose source the system creates can be started once, which returns POS_OK, marks it as
  -- active and leaves its source running. Any further start ends the process: while the timer runs,
  -- after a stop, and after it expired.
  pub start-once :
      (cb arg h ticks again : ℕ) (s : State)
      → (source_create s).0 ≡ some h
      → let (_, t0, s0) = pos_timer_init A cb arg s in
        (t : Timer) × (s1 : State) × (pos_timer_start A t0 ticks s0 ≡ done (ok, t, s1))
        × (t.tm_active ≡ true)
        × (suspended h s1 ≡ false)
        × (cancelled h s1 ≡ false)
        × (pos_timer_start A t again s1 ≡ assert_failed)
        × (let (_, t', s') = pos_timer_stop A t s1 in pos_timer_start A t' again s' ≡ assert_failed)
        × (let (_, t', s') = pos_timer_cb A t s1 in pos_timer_start A t' again s' ≡ assert_failed)
  unfolding pos_timer_init pos_timer_cb
  start-once cb arg h ticks again s e =
      let (x, c) = create_lem s h e in
      let (t, s1, r, i, a, u, d) = start-suspended _ h ticks (source_create s).1 e x in
      let (j, v, _) = stop-suspended t h s1 i in
      let stopped = start-resumed _ h again _ j (v ∙ u) in
      (t, s1, r, a, u, d ∙ c, start-resumed t h again s1 i u, stopped, stopped)

  -- A timer that is stopped before its first start, and then started, reports POS_OK and is marked as
  -- active, but its source is cancelled, so that it never expires.
  pub start-cancelled :
      (t : Timer) (h ticks : ℕ) (s : State)
      → t.tm_timer ≡ some h
      → suspended h s ≡ true
      → let (_, t0, s0) = pos_timer_stop A t s in
        (t' : Timer) × (s' : State) × (pos_timer_start A t0 ticks s0 ≡ done (ok, t', s'))
        × (t'.tm_active ≡ true)
        × (cancelled h s' ≡ true)
  start-cancelled t h ticks s e x =
      let (i, u, c) = stop-suspended t h s e in
      let (t', s', r, _, a, _, d) = start-suspended _ h ticks _ i (u ∙ x) in (t', s', r, a, d ∙ c)

-- On Apple's systems the mutex keeps its contract, and a lock with any timeout is the one without.
pub apple_lock-Locks :
    (A : MutexApi) (tmo : ℕ) (s : MutexApi.State A)
    → Ensures (Locks (MutexApi.holds A) (MutexApi.holds A s)) (pos_mutex_lock A tmo s)
      × (pos_mutex_lock A tmo s ≡ Mutex.pos_mutex_lock A time_forever s)
unfolding pos_mutex_lock Mutex.pos_mutex_lock
apple_lock-Locks A tmo s =
    (mapped-Locks A (MutexApi.holds A s) (MutexApi.mutex_lock A s) (MutexApi.lock_lem A s), refl)
