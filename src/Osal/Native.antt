-- ===== src/Osal/Native.antt =====
-- The functions of include/poski/osal/os_queue.h, os_task.h, os_sched.h, os_time.h and os_timer.h,
-- whatever port provides them, on the state of an object and of the kernel.
use poski.Base.{ℕ, Bool, Option, List, Outcome}
use poski.Osal.ErrorCode.{PosError}

pub record NativeQueue : Type 1 where
  pub State : Type 0
  pub init : ℕ → ℕ → State → Outcome (PosError × State)
  pub deinit : State → PosError × State
  pub get : ℕ → State → Outcome (PosError × Option (List ℕ) × State)
  pub put : List ℕ → State → Outcome (PosError × State)
  pub is_empty : State → Outcome Bool
  pub inited : State → Bool
  pub set_signal_cb : Option ℕ → ℕ → State → State

-- Function and argument of a task are numbers.
pub record NativeTask : Type 1 where
  pub State : Type 0
  pub init : ℕ → Option ℕ → ℕ → ℕ → ℕ → State → PosError × State
  pub remove : State → PosError × State
  pub yield : State → State
  pub sleep : ℕ → State → State
  pub sleep_ms : ℕ → State → State
  pub current_task_id : State → Option ℕ

-- The functions of include/poski/osal/os_sched.h.
pub record NativeSched : Type 1 where
  pub State : Type 0
  pub start : State → State
  pub started : State → Bool

-- The functions of include/poski/osal/os_time.h; the state is what the clock reads.
pub record NativeTime : Type 1 where
  pub State : Type 0
  pub get : State → ℕ
  pub get_ms : State → ℕ
  pub ms_to_ticks : ℕ → ℕ
  pub ticks_to_ms : ℕ → ℕ

-- The functions of include/poski/osal/os_timer.h.
pub record NativeTimer : Type 1 where
  pub State : Type 0
  pub init : ℕ → ℕ → State → PosError × State
  pub start : ℕ → State → Outcome (PosError × State)
  pub start_ms : ℕ → State → Outcome (PosError × State)
  pub stop : State → Outcome (PosError × State)
  pub inited : State → PosError
  pub is_active : State → Outcome Bool
  pub get_ticks : State → Outcome ℕ
  pub remaining_ticks : ℕ → State → Outcome ℕ
  pub arg_set : ℕ → State → State
  pub arg_get : State → ℕ
