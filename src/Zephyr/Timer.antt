-- ===== src/Zephyr/Timer.antt =====
-- targets/zephyr/os_timer.c, whose functions are named chip_os_timer_*, and struct pos_timer of
-- poski/osal/os_time.h, which has the fields that they use.
pub mod Contract
use poski.Base.{ℕ, ◌<◌, ◌≡◌, Bool, Option, none, some, u32, ltb}
use poski.Zephyr.Utils.{Duration, ticks, span}
use poski.Osal.ErrorCode.{PosError, ok}

-- `struct pos_timer` less the timer of the kernel; functions and arguments are numbers, and a null
-- callback is `none`.
pub record Timer : Type 0 where
  pub cb : Option ℕ
  pub arg : ℕ

abbrev pub amount : Duration → ℕ
amount (ticks n) = n
amount (span n) = n

-- The kernel's timer, with a period of K_NO_WAIT. It documents that a started timer has time left, and
-- that one that is new, stopped or has expired has none.
pub record TimerApi : Type 1 where
  pub State : Type 0
  pub remaining : State → ℕ  -- `k_timer_remaining_ticks`
  pub k_timer_init : State → State
  pub k_timer_start : Duration → State → State
  pub k_timer_stop : State → State
  pub expires : State → State  -- the kernel's part of an expiry
  pub init_lem : (s : State) → remaining (k_timer_init s) ≡ 0
  pub start_lem : (d : Duration) (s : State) → 0 < amount d → 0 < remaining (k_timer_start d s)
  pub stop_lem : (s : State) → remaining (k_timer_stop s) ≡ 0
  pub expires_lem : (s : State) → remaining (expires s) ≡ 0

-- What the kernel calls when the timer expires: the call of the user's function that it makes, if any.
unfoldable pub zephyr_timer_wrapper : Timer → Option (ℕ × ℕ)
zephyr_timer_wrapper timer = elim timer.cb [ none ↦ none | some f ↦ some (f, timer.arg) ]

module _ (A : TimerApi) where
  open A use {State, remaining, k_timer_init, k_timer_start, k_timer_stop}

  unfoldable pub chip_os_timer_init : Option ℕ → ℕ → State → PosError × Timer × State
  chip_os_timer_init cb arg s = (ok, record { cb = cb; arg = arg }, k_timer_init s)

  unfoldable pub chip_os_timer_start_ms : ℕ → State → PosError × State
  chip_os_timer_start_ms duration s = (ok, k_timer_start (span duration) s)

  unfoldable pub chip_os_timer_start : ℕ → State → PosError × State
  chip_os_timer_start n s = (ok, k_timer_start (ticks n) s)

  unfoldable pub chip_os_timer_stop : State → PosError × State
  chip_os_timer_stop s = (ok, k_timer_stop s)

  unfoldable pub chip_os_timer_is_active : State → Bool
  chip_os_timer_is_active s = ltb 0 (remaining s)

  -- The ticks of the kernel are cut to 32 bits.
  unfoldable pub chip_os_timer_remaining_ticks : ℕ → State → ℕ
  chip_os_timer_remaining_ticks time s = u32 (remaining s)

unfoldable pub chip_os_timer_inited : Timer → PosError
chip_os_timer_inited timer = ok

unfoldable pub chip_os_timer_get_ticks : Timer → ℕ
chip_os_timer_get_ticks timer = 0

unfoldable pub chip_os_timer_arg_set : Timer → ℕ → Timer
chip_os_timer_arg_set timer arg = record timer { arg = arg }

unfoldable pub chip_os_timer_arg_get : Timer → ℕ
chip_os_timer_arg_get timer = timer.arg
