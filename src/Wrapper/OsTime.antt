-- ===== src/Wrapper/OsTime.antt =====
-- include/poski/OsTime.h: static methods that pass on to the functions of os_time.h.
use poski.Base.{ℕ}
use poski.Osal.Native.{NativeTime}

module _ (M : NativeTime) where
  open M use {State}

  unfoldable pub get : State → ℕ
  get s = M.get s

  unfoldable pub get_ms : State → ℕ
  get_ms s = M.get_ms s

  unfoldable pub ms_to_ticks : ℕ → ℕ
  ms_to_ticks ms = M.ms_to_ticks ms

  unfoldable pub ticks_to_ms : ℕ → ℕ
  ticks_to_ms ticks = M.ticks_to_ms ticks
