-- ===== src/RtThread/Sync.antt =====
-- targets/rt-thread/os_sem.c and os_mutex.c, and the conversions of time of os_port.h.
pub mod Laws
use poski.Base.{
  ℕ, suc, ◌≡◌, Bool, true, false, not, Option, none, some, ℤ, pos, negsuc, ◌==ℤ◌, if◌then◌else◌,
  Outcome, done, assert_failed, ◌>>=◌, ◌>>◌, assert, Ensures,
}
use poski.Osal.ErrorCode.{PosError, ok, invalid_param, bad_mutex, timeout, error, Call}
use poski.Osal.Ticks.{scaled}

-- RT_EOK, and the negative RT_ETIMEOUT
abbrev pub rt_eok : ℤ
rt_eok = pos 0

abbrev pub neg_etimeout : ℤ
neg_etimeout = negsuc 1

-- At `rate` ticks a second; `rt_tick_t` has 32 bits.
unfoldable pub pos_time_ms_to_ticks : ℕ → ℕ → ℕ
pos_time_ms_to_ticks rate ms = scaled ms rate 1000

unfoldable pub pos_time_ticks_to_ms : ℕ → ℕ → ℕ
pos_time_ticks_to_ms rate ticks = scaled ticks 1000 rate

-- `struct pos_sem` and `struct pos_mutex`
pub record Handle : Type 0 where
  pub handle : Option ℕ

abbrev pub handle_of : Option ℕ → Outcome ℕ
handle_of none = assert_failed
handle_of (some h) = done h

-- Semaphores of the kernel.
pub record SemApi : Type 1 where
  pub State : Type 0
  pub tokens : ℕ → State → ℕ
  pub create : ℕ → State → Option ℕ × State
  pub take : ℕ → ℕ → State → Outcome (ℤ × State)
  pub release : ℕ → State → ℤ × State
  pub take_lem :
      (h tmo : ℕ) (s : State)
      → Ensures {A = ℤ × State}
          (λ p. tokens h s ≡ (if p.0 ==ℤ rt_eok then suc (tokens h p.1) else tokens h p.1))
          (take h tmo s)
  pub release_lem :
      (h : ℕ) (s : State)
      → tokens h (release h s).1
        ≡ (if (release h s).0 ==ℤ rt_eok then suc (tokens h s) else tokens h s)

module _ (A : SemApi) where
  open A use {State, create, take, release}

  unfoldable pub pos_sem_init :
      Option Handle → ℕ → State → Outcome (PosError × Option Handle × State)
  pos_sem_init none n s = done (invalid_param, none, s)
  pos_sem_init (some sem) n s =
      let (handle, s') = create n s in
      handle_of handle >>= λ h. done (ok, some (record { handle = some h }), s')

  unfoldable pub pos_sem_take : Option Handle → ℕ → Call State
  pos_sem_take none tmo s = done (invalid_param, s)
  pos_sem_take (some sem) tmo s = handle_of sem.handle >>= λ h.
      take h tmo s >>= λ p. done (if p.0 ==ℤ rt_eok then ok else timeout, p.1)

  unfoldable pub pos_sem_give : Option Handle → Call State
  pos_sem_give none s = done (invalid_param, s)
  pos_sem_give (some sem) s = handle_of sem.handle >>= λ h.
      let (ret, s') = release h s in done (if ret ==ℤ rt_eok then ok else error, s')

-- Mutexes of the kernel; `holds` is how often the calling thread holds one.
pub record MutexApi : Type 1 where
  pub State : Type 0
  pub in_isr : State → Bool
  pub holds : ℕ → State → ℕ
  pub create : State → Option ℕ × State
  pub take : ℕ → ℕ → State → Outcome (ℤ × State)
  pub release : ℕ → State → ℤ × State
  pub take_lem :
      (h tmo : ℕ) (s : State)
      → Ensures {A = ℤ × State}
          (λ p. holds h p.1 ≡ (if p.0 ==ℤ rt_eok then suc (holds h s) else holds h s))
          (take h tmo s)
  pub release_lem :
      (h : ℕ) (s : State)
      → holds h s ≡ (
          if (release h s).0 ==ℤ rt_eok
          then suc (holds h (release h s).1)
          else holds h (release h s).1)

module _ (A : MutexApi) where
  open A use {State, in_isr, create, take, release}

  unfoldable pub pos_mutex_init : Option Handle → State → Outcome (PosError × Option Handle × State)
  pos_mutex_init none s = done (invalid_param, none, s)
  pos_mutex_init (some mu) s =
      let (handle, s') = create s in
      handle_of handle >>= λ h. done (ok, some (record { handle = some h }), s')

  unfoldable pub pos_mutex_lock : Option Handle → ℕ → Call State
  pos_mutex_lock none tmo s = done (invalid_param, s)
  pos_mutex_lock (some mu) tmo s = handle_of mu.handle >>= λ h.
      take h tmo s >>= λ p. done (if p.0 ==ℤ rt_eok then ok else bad_mutex, p.1)

  unfoldable pub pos_mutex_unlock : Option Handle → Call State
  pos_mutex_unlock mu s = assert (not (in_isr s)) >> elim mu [
    | none ↦ done (invalid_param, s)
    | some m ↦ handle_of m.handle >>= λ h.
        let (ret, s') = release h s in done (if ret ==ℤ rt_eok then ok else bad_mutex, s')
  ]
