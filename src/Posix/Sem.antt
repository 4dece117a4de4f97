-- ===== src/Posix/Sem.antt =====
-- targets/posix/os_sem.c, the branch for POSIX semaphores.
pub mod Laws
use poski.Base.{
  ℕ, suc, ◌+◌, ◌*◌, ◌≤◌, ◌≡◌, ◌≢◌, ℤ, pos, negsuc, ◌==◌, ◌==ℤ◌, if◌then◌else◌, Outcome, done, ◌>>=◌,
  Ensures,
}
use poski.Osal.ErrorCode.{PosError, Call}
use poski.Posix.Utils.{map_posix_to_osal_error, Libc, einval_no}
use poski.Posix.Time.{Timespec, time_forever, with_deadline}

-- semaphore.h and `clock_gettime` as POSIX documents them: a failure is -1, with a number other than
-- 0 in `errno`, and leaves the value of the semaphore alone. The state is that of the semaphore and
-- of the system behind it.
pub record SemApi : Type 1 where
  pub State : Type 0
  pub tokens : State → ℕ
  pub errno : State → ℤ
  pub sem_init : ℕ → Libc State
  pub sem_post : Libc State
  pub sem_wait : State → Outcome (ℤ × State)
  pub sem_timedwait : Timespec → State → Outcome (ℤ × State)
  pub clock_gettime : State → ℤ × Timespec × State
  pub init_lem : (n : ℕ) (s : State) → (sem_init n s).0 ≡ pos 0 → tokens (sem_init n s).1 ≡ n
  pub post_lem :
      (s : State)
      → tokens (sem_post s).1 ≡ (if (sem_post s).0 ==ℤ pos 0 then suc (tokens s) else tokens s)
  pub wait_lem :
      (s : State)
      → Ensures {A = ℤ × State}
          (λ p. tokens s ≡ (if p.0 ==ℤ pos 0 then suc (tokens p.1) else tokens p.1))
          (sem_wait s)
  pub timedwait_lem :
      (t : Timespec) (s : State)
      → Ensures {A = ℤ × State}
          (λ p.
            (tokens s ≡ (if p.0 ==ℤ pos 0 then suc (tokens p.1) else tokens p.1))
            × ((p.0 ≢ pos 0) → errno p.1 ≢ pos 0))
          (sem_timedwait t s)
  -- A call that would have to wait fails if the nanoseconds are not below a second.
  pub timedwait_invalid :
      (t : Timespec) (s : State)
      → tokens s ≡ 0
      → 1_000_000_000 ≤ t.nsec
      → (s' : State) × (sem_timedwait t s ≡ done (negsuc 0, s')) × (errno s' ≡ einval_no)
  pub clock_lem : (s : State) → tokens (clock_gettime s).2 ≡ tokens s

module _ (A : SemApi) where
  open A use {State, errno, sem_init, sem_post, sem_wait, sem_timedwait, clock_gettime}

  unfoldable pub pos_sem_init : ℕ → Call State
  pos_sem_init tokens s =
      let (ret, s') = sem_init tokens s in done (map_posix_to_osal_error ret, s')

  unfoldable pub pos_sem_give : Call State
  pos_sem_give s = let (ret, s') = sem_post s in done (map_posix_to_osal_error ret, s')

  -- With a deadline: `ret = sem_timedwait(...); ret = (ret) ? errno : POS_OK;`.
  unfoldable pub timed_wait : Timespec → State → Outcome (PosError × State)
  timed_wait t s = sem_timedwait t s >>= λ p.
      done (map_posix_to_osal_error (if p.0 ==ℤ pos 0 then pos 0 else errno p.1), p.1)

  unfoldable pub pos_sem_take : ℕ → Call State
  unfolding timed_wait
  pos_sem_take timeout s =
      if timeout == time_forever
      then (sem_wait s >>= λ p. done (map_posix_to_osal_error p.0, p.1))
      else with_deadline (clock_gettime s) timeout timed_wait
