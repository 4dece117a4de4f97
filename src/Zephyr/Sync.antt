-- ===== src/Zephyr/Sync.antt =====
-- targets/zephyr/os_sem.c and os_mutex.c.
pub mod Laws
use poski.Base.{
  ℕ, zero, suc, ◌<◌, ◌≤◌, ◌≡◌, Bool, true, false, ltb, ℤ, pos, ◌==ℤ◌, if◌then◌else◌, Outcome, done,
  ◌>>=◌, Ensures,
}
use poski.Osal.ErrorCode.{PosError, ok, error, Call}
use poski.Zephyr.Utils.{Timeout, forever, no_wait, msec, kernel_timeout, result_of, neg_ebusy}

-- Semaphores of the kernel; a give that would go beyond the limit adds nothing.
pub record SemApi : Type 1 where
  pub State : Type 0
  pub tokens : State → ℕ
  pub limit : State → ℕ
  pub max_limit : ℕ  -- K_SEM_MAX_LIMIT
  pub k_sem_init : ℕ → ℕ → State → State
  pub k_sem_take : Timeout → State → Outcome (ℤ × State)
  pub k_sem_give : State → State
  pub init_lem :
      (n most : ℕ) (s : State)
      → n ≤ most
      → (tokens (k_sem_init n most s) ≡ n) × (limit (k_sem_init n most s) ≡ most)
  pub take_lem :
      (t : Timeout) (s : State)
      → Ensures {A = ℤ × State}
          (λ p. tokens s ≡ (if p.0 ==ℤ pos 0 then suc (tokens p.1) else tokens p.1))
          (k_sem_take t s)
  pub poll_lem :
      (s : State) → tokens s ≡ 0 → (s' : State) × (k_sem_take no_wait s ≡ done (neg_ebusy, s'))
  pub give_lem :
      (s : State)
      → tokens (k_sem_give s) ≡ (if ltb (tokens s) (limit s) then suc (tokens s) else tokens s)

module _ (A : SemApi) where
  open A use {State, k_sem_init, k_sem_take, k_sem_give, max_limit}

  unfoldable pub pos_sem_init : ℕ → State → PosError × State
  pos_sem_init n s = (ok, k_sem_init n max_limit s)

  unfoldable pub pos_sem_take : ℕ → Call State
  unfolding kernel_timeout result_of
  pos_sem_take tmo s = k_sem_take (kernel_timeout tmo) s >>= λ p. done (result_of p.0, p.1)

  unfoldable pub pos_sem_give : Call State
  pos_sem_give s = done (ok, k_sem_give s)

-- Mutexes of the kernel; `holds` is how often the calling thread holds one, `is_busy` says that another
-- one does.
pub record MutexApi : Type 1 where
  pub State : Type 0
  pub holds : State → ℕ
  pub is_busy : State → Bool
  pub k_mutex_init : State → State
  pub k_mutex_lock : Timeout → State → Outcome (ℤ × State)
  pub k_mutex_unlock : State → ℤ × State
  pub lock_lem :
      (t : Timeout) (s : State)
      → Ensures {A = ℤ × State}
          (λ p. holds p.1 ≡ (if p.0 ==ℤ pos 0 then suc (holds s) else holds s))
          (k_mutex_lock t s)
  pub poll_lem :
      (s : State)
      → is_busy s ≡ true
      → (s' : State) × (k_mutex_lock no_wait s ≡ done (neg_ebusy, s'))
  pub unlock_lem :
      (s : State)
      → holds s ≡ (
          if (k_mutex_unlock s).0 ==ℤ pos 0
          then suc (holds (k_mutex_unlock s).1)
          else holds (k_mutex_unlock s).1)

module _ (A : MutexApi) where
  open A use {State, k_mutex_init, k_mutex_lock, k_mutex_unlock}

  unfoldable pub pos_mutex_init : State → PosError × State
  pos_mutex_init s = (ok, k_mutex_init s)

  unfoldable pub pos_mutex_lock : ℕ → Call State
  unfolding kernel_timeout result_of
  pos_mutex_lock tmo s = k_mutex_lock (kernel_timeout tmo) s >>= λ p. done (result_of p.0, p.1)

  unfoldable pub pos_mutex_unlock : Call State
  pos_mutex_unlock s =
      let (err, s') = k_mutex_unlock s in done (if err ==ℤ pos 0 then ok else error, s')
