-- ===== src/Freertos/Sched.antt =====
-- targets/freertos/poski/osal/os_port.h: the functions of the scheduler and the clock, and those by
-- which a task sleeps.
use poski.Base.{ℕ, not, Bool, Option}
use poski.Freertos.Time.{pos_time_ms_to_ticks}

-- task.h, on the state of the kernel.
pub record SchedApi : Type 1 where
  pub State : Type 0
  pub not_started : State → Bool  -- the scheduler's state is taskSCHEDULER_NOT_STARTED
  pub tick_count : State → ℕ
  pub task_yield : State → State
  pub delay : ℕ → State → State
  pub current_handle : State → Option ℕ
  pub start_scheduler : State → State

module _ (A : SchedApi) where
  open A use {State, not_started, tick_count, task_yield, delay, current_handle, start_scheduler}

  unfoldable pub pos_os_started : State → Bool
  pos_os_started s = not (not_started s)

  unfoldable pub pos_time_get : State → ℕ
  pos_time_get s = tick_count s

  unfoldable pub pos_task_yield : State → State
  pos_task_yield s = task_yield s

  unfoldable pub pos_task_sleep : ℕ → State → State
  pos_task_sleep ticks s = delay ticks s

  -- At `rate` ticks a second.
  unfoldable pub pos_task_sleep_ms : ℕ → ℕ → State → State
  unfolding pos_task_sleep
  pos_task_sleep_ms rate ms s = pos_task_sleep (pos_time_ms_to_ticks rate ms) s

  unfoldable pub pos_get_current_task_id : State → Option ℕ
  pos_get_current_task_id s = current_handle s

  unfoldable pub pos_sched_start : State → State
  pos_sched_start s = start_scheduler s
