-- ===== src/Posix/Apple.antt =====
-- The branches for Apple's systems of targets/posix/os_sem.c and os_timer.c, over libdispatch, and of
-- os_mutex.c.
pub mod Laws
use poski.Base.{
  ℕ, suc, ◌+◌, ◌*◌, ◌^◌, ◌%◌, ◌≤◌, ◌≡◌, ◌≢◌, Bool, true, false, Option, none, some, ℤ, pos, ◌==ℤ◌,
  if◌then◌else◌, Outcome, done, assert_failed, ◌>>=◌, Ensures,
}
use poski.Osal.ErrorCode.{PosError, ok, enomem, einval, timeout, Call}
use poski.Posix.Utils.{map_posix_to_osal_error}
use poski.Posix.Mutex.{MutexApi}
use poski.Posix.Timer.{Timer}

-- Dispatch semaphores. `now` is the dispatch time: a wait until a time that is past does not wait.
pub record SemApi : Type 1 where
  pub State : Type 0
  pub tokens : State → ℕ
  pub now : State → ℕ
  pub semaphore_create : ℕ → State → Option ℕ × State
  pub semaphore_signal : State → ℤ × State
  pub semaphore_wait : ℕ → State → Outcome (ℤ × State)
  pub signal_lem : (s : State) → tokens (semaphore_signal s).1 ≡ suc (tokens s)
  pub wait_lem :
      (until : ℕ) (s : State)
      → Ensures {A = ℤ × State}
          (λ p. tokens s ≡ (if p.0 ==ℤ pos 0 then suc (tokens p.1) else tokens p.1))
          (semaphore_wait until s)
  pub wait_past :
      (until : ℕ) (s : State)
      → tokens s ≡ 0
      → until ≤ now s
      → (expired : ℤ) × (s' : State) × (semaphore_wait until s ≡ done (expired, s'))
        × (expired ≢ pos 0)

module _ (A : SemApi) where
  open A use {State, semaphore_create, semaphore_signal, semaphore_wait}

  -- With the semaphore that was created.
  unfoldable pub pos_sem_init : ℕ → State → PosError × Option ℕ × State
  pos_sem_init n s =
      let (lock, s') = semaphore_create n s in (elim lock [ none ↦ enomem | some _ ↦ ok ], lock, s')

  unfoldable pub pos_sem_give : Call State
  pos_sem_give s = let (woke, s') = semaphore_signal s in done (ok, s')

  -- The timeout is passed on as the time until which to wait.
  unfoldable pub pos_sem_take : ℕ → Call State
  pos_sem_take tmo s =
      semaphore_wait tmo s >>= λ p. done (if p.0 ==ℤ pos 0 then ok else timeout, p.1)

-- The lock of targets/posix/os_mutex.c waits for any time, whatever its timeout.
unfoldable pub pos_mutex_lock : (A : MutexApi) → ℕ → Call (MutexApi.State A)
pos_mutex_lock A tmo s = MutexApi.mutex_lock A s >>= λ p. done (map_posix_to_osal_error p.0, p.1)

-- Dispatch sources of the timer type. libdispatch documents that a source is created suspended, that a
-- source that is cancelled stays so, and that a resume of a source that is not suspended ends the
-- process, as an assertion that fails does.
pub record TimerApi : Type 1 where
  pub State : Type 0
  pub cancelled : ℕ → State → Bool
  pub suspended : ℕ → State → Bool
  pub clock : State → ℕ  -- `pos_time_get`
  pub source_create : State → Option ℕ × State
  pub set_timer : ℕ → ℕ → State → State
  pub resume : ℕ → State → Outcome State
  pub source_cancel : ℕ → State → State
  pub create_lem :
      (s : State) (h : ℕ)
      → (source_create s).0 ≡ some h
      → (suspended h (source_create s).1 ≡ true) × (cancelled h (source_create s).1 ≡ false)
  pub set_timer_lem :
      (h n : ℕ) (s : State)
      → (suspended h (set_timer h n s) ≡ suspended h s)
        × (cancelled h (set_timer h n s) ≡ cancelled h s)
  pub cancel_lem :
      (h : ℕ) (s : State)
      → (suspended h (source_cancel h s) ≡ suspended h s) × (cancelled h (source_cancel h s) ≡ true)
  pub resume_lem :
      (h : ℕ) (s : State)
      → suspended h s ≡ true
      → (s' : State) × (resume h s ≡ done s')
        × (suspended h s' ≡ false)
        × (cancelled h s' ≡ cancelled h s)
  pub resume_again : (h : ℕ) (s : State) → suspended h s ≡ false → resume h s ≡ assert_failed

module _ (A : TimerApi) where
  open A use {State, clock, source_create, set_timer, resume, source_cancel}

  unfoldable pub pos_timer_init : ℕ → ℕ → State → PosError × Timer × State
  pos_timer_init tm_cb tm_arg s =
      let (dispatch, s') = source_create s in
      (
        ok,
        record {
          tm_cb = tm_cb;
          tm_ticks = 0;
          tm_timer = dispatch;
          tm_active = false;
          tm_arg = tm_arg;
        },
        s',
      )

  -- There are 1000 nanoseconds to a tick, and times have 64 bits. A timer without a source is not
  -- initialised.
  unfoldable pub pos_timer_start : Timer → ℕ → State → Outcome (PosError × Timer × State)
  pos_timer_start t ticks s = elim t.tm_timer [
    | none ↦ done (einval, t, s)
    | some dispatch ↦
        let t' = record t { tm_ticks = (clock s + ticks) % 2 ^ 64 } in
        resume dispatch (set_timer dispatch (ticks * 1000) s) >>= λ s'.
        done (ok, record t' { tm_active = true }, s')
  ]

  unfoldable pub pos_timer_stop : Timer → State → PosError × Timer × State
  pos_timer_stop t s = elim t.tm_timer [
    | none ↦ (einval, t, s)
    | some dispatch ↦ (ok, record t { tm_active = false }, source_cancel dispatch s)
  ]

  unfoldable pub pos_timer_remaining_ticks : Timer → ℕ → ℕ
  pos_timer_remaining_ticks t now = 0

  -- The event handler, with the user's callback and its argument.
  unfoldable pub pos_timer_cb : Timer → State → (ℕ × ℕ) × Timer × State
  unfolding pos_timer_stop
  pos_timer_cb t s = let (e, t', s') = pos_timer_stop t s in ((t.tm_cb, t.tm_arg), t', s')
