-- ===== src/Freertos/Mutex.antt =====
-- targets/freertos/os_mutex.c.
pub mod Laws
use poski.Base.{
  ℕ, suc, ◌≡◌, Bool, true, false, not, Option, none, some, if◌then◌else◌, Outcome, done, ◌>>=◌,
  ◌>>◌, assert, Ensures,
}
use poski.Osal.ErrorCode.{PosError, ok, invalid_param, timeout, bad_mutex, Call}
use poski.Freertos.Sem.{handle_of}

-- The recursive mutexes of semphr.h; `holds` is how often the calling task holds one.
pub record MutexApi : Type 1 where
  pub State : Type 0
  pub in_isr : State → Bool
  pub holds : ℕ → State → ℕ
  pub create_recursive : State → Option ℕ × State
  pub take_recursive : ℕ → ℕ → State → Outcome (Bool × State)
  pub give_recursive : ℕ → State → Bool × State
  pub take_lem :
      (h tmo : ℕ) (s : State)
      → Ensures {A = Bool × State}
          (λ p. holds h p.1 ≡ (if p.0 then suc (holds h s) else holds h s))
          (take_recursive h tmo s)
  pub give_lem :
      (h : ℕ) (s : State)
      → holds h s ≡ (
          if (give_recursive h s).0
          then suc (holds h (give_recursive h s).1)
          else holds h (give_recursive h s).1)

-- `struct pos_mutex`
pub record Mutex : Type 0 where
  pub handle : Option ℕ

module _ (A : MutexApi) where
  open A use {State, in_isr, create_recursive, take_recursive, give_recursive}

  unfoldable pub pos_mutex_init : Option Mutex → State → Outcome (PosError × Option Mutex × State)
  pos_mutex_init none s = done (invalid_param, none, s)
  pos_mutex_init (some mu) s =
      let (handle, s') = create_recursive s in
      handle_of handle >>= λ h. done (ok, some (record { handle = some h }), s')

  unfoldable pub pos_mutex_lock : Option Mutex → ℕ → Call State
  pos_mutex_lock mu tmo s = assert (not (in_isr s)) >> elim mu [
    | none ↦ done (invalid_param, s)
    | some m ↦ handle_of m.handle >>= λ h.
        take_recursive h tmo s >>= λ p. done (if p.0 then ok else timeout, p.1)
  ]

  unfoldable pub pos_mutex_unlock : Option Mutex → Call State
  pos_mutex_unlock mu s = assert (not (in_isr s)) >> elim mu [
    | none ↦ done (invalid_param, s)
    | some m ↦ handle_of m.handle >>= λ h.
        let (ret, s') = give_recursive h s in done (if ret then ok else bad_mutex, s')
  ]
