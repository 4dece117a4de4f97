-- ===== src/Posix/Mutex.antt =====
-- targets/posix/os_mutex.c, the branch for systems other than Apple's.
pub mod Laws
use poski.Base.{
  ℕ, suc, ◌≤◌, ◌≡◌, ℤ, pos, ◌==◌, ◌==ℤ◌, if◌then◌else◌, Bool, true, Outcome, done, ◌>>=◌, Ensures,
}
use poski.Osal.ErrorCode.{PosError, ok, bad_mutex, Call}
use poski.Posix.Utils.{map_posix_to_osal_error, Libc, einval_no, ◌>>?◌}
use poski.Posix.Time.{Timespec, time_forever, with_deadline}

-- A recursive mutex of pthread.h and `clock_gettime`, as POSIX documents them: the functions return
-- an error number. The state is that of the mutex and of the system behind it; `holds` counts the
-- locks of the calling thread, and `is_busy` says that another thread holds it.
pub record MutexApi : Type 1 where
  pub State : Type 0
  pub holds : State → ℕ
  pub is_busy : State → Bool
  pub mutexattr_init : Libc State
  pub mutexattr_settype : Libc State
  pub mutex_init : Libc State
  pub mutex_lock : State → Outcome (ℤ × State)
  pub mutex_timedlock : Timespec → State → Outcome (ℤ × State)
  pub mutex_unlock : Libc State
  pub clock_gettime : State → ℤ × Timespec × State
  pub lock_lem :
      (s : State)
      → Ensures {A = ℤ × State}
          (λ p. holds p.1 ≡ (if p.0 ==ℤ pos 0 then suc (holds s) else holds s))
          (mutex_lock s)
  pub timedlock_lem :
      (t : Timespec) (s : State)
      → Ensures {A = ℤ × State}
          (λ p. holds p.1 ≡ (if p.0 ==ℤ pos 0 then suc (holds s) else holds s))
          (mutex_timedlock t s)
  -- A call that would have to wait fails if the nanoseconds are not below a second.
  pub timedlock_invalid :
      (t : Timespec) (s : State)
      → is_busy s ≡ true
      → 1_000_000_000 ≤ t.nsec
      → (s' : State) × (mutex_timedlock t s ≡ done (einval_no, s'))
  pub unlock_lem :
      (s : State)
      → holds s ≡ (
          if (mutex_unlock s).0 ==ℤ pos 0
          then suc (holds (mutex_unlock s).1)
          else holds (mutex_unlock s).1)
  pub clock_lem :
      (s : State)
      → (holds (clock_gettime s).2 ≡ holds s) × (is_busy (clock_gettime s).2 ≡ is_busy s)

module _ (A : MutexApi) where
  open A use {
    State, mutexattr_init, mutexattr_settype, mutex_init, mutex_lock, mutex_timedlock, mutex_unlock,
    clock_gettime,
  }

  unfoldable pub pos_mutex_init : Call State
  pos_mutex_init s =
      let (ret, s') = (mutexattr_init >>? mutexattr_settype >>? mutex_init) s in
      done (if ret ==ℤ pos 0 then ok else bad_mutex, s')

  unfoldable pub pos_mutex_unlock : Call State
  pos_mutex_unlock s = let (ret, s') = mutex_unlock s in done (map_posix_to_osal_error ret, s')

  unfoldable pub timed_lock : Timespec → State → Outcome (PosError × State)
  timed_lock t s = mutex_timedlock t s >>= λ p. done (map_posix_to_osal_error p.0, p.1)

  -- The code computes the deadline in `mu->wait`, before it has the lock. Here it is local to the call,
  -- as where no other thread locks the mutex with a timeout at the same time.
  unfoldable pub pos_mutex_lock : ℕ → Call State
  unfolding timed_lock
  pos_mutex_lock timeout s =
      if timeout == time_forever
      then (mutex_lock s >>= λ p. done (map_posix_to_osal_error p.0, p.1))
      else with_deadline (clock_gettime s) timeout timed_lock
