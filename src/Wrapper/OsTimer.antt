-- ===== src/Wrapper/OsTimer.antt =====
-- include/poski/OsTimer.h: the constructor, and methods that pass on to the native timer, which is the
-- object's state.
use poski.Base.{ℕ, ◌≡◌, ap, Bool, Outcome, done, assert, ◌>>◌, Ensures, Ensures-assert}
use poski.Osal.ErrorCode.{PosError, ok, is_ok, is_ok→ok}
use poski.Osal.Native.{NativeTimer}

module _ (M : NativeTimer) where
  open M use {State}

  unfoldable pub init : ℕ → ℕ → State → Outcome State
  init cb arg s = let (err, s') = M.init cb arg s in assert (is_ok err) >> done s'

  unfoldable pub start : ℕ → State → Outcome (PosError × State)
  start ticks t = M.start ticks t

  unfoldable pub start_ms : ℕ → State → Outcome (PosError × State)
  start_ms ms t = M.start_ms ms t

  unfoldable pub stop : State → Outcome (PosError × State)
  stop t = M.stop t

  unfoldable pub is_active : State → Outcome Bool
  is_active t = M.is_active t

  unfoldable pub get_ticks : State → Outcome ℕ
  get_ticks t = M.get_ticks t

  unfoldable pub remaining_ticks : ℕ → State → Outcome ℕ
  remaining_ticks time t = M.remaining_ticks time t

  unfoldable pub arg_set : ℕ → State → State
  arg_set arg t = M.arg_set arg t

  unfoldable pub arg_get : State → ℕ
  arg_get t = M.arg_get t

  -- A constructor that returns has initialised the native timer, with POS_OK.
  pub init-ok :
      (cb arg : ℕ) (s : State)
      → Ensures {A = State} (λ t. M.init cb arg s ≡ (ok, t)) (init cb arg s)
  unfolding init
  init-ok cb arg s =
      Ensures-assert {B = State} (λ t. M.init cb arg s ≡ (ok, t)) (is_ok (M.init cb arg s).0) _
        (λ e. ap (λ x. (x, (M.init cb arg s).1)) (is_ok→ok (M.init cb arg s).0 e))
