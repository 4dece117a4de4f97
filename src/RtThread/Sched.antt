-- ===== src/RtThread/Sched.antt =====
-- targets/rt-thread/os_task.c and poski/osal/os_port.h: the functions of the clock and the scheduler, and
-- those by which a task sleeps.
use poski.Base.{ℕ, Option, ltb, ℤ, pos, negsuc, ◌-◌, if◌then◌else◌}

-- rtthread.h, on the state of the kernel; `mdelay` takes an `rt_int32_t`.
pub record SchedApi : Type 1 where
  pub State : Type 0
  pub tick_get : State → ℕ
  pub tick_get_millisecond : State → ℕ
  pub thread_yield : State → State
  pub thread_delay : ℕ → State → State
  pub thread_mdelay : ℤ → State → State
  pub thread_self : State → Option ℕ

-- The conversion of a number of 32 bits to `rt_int32_t`.
abbrev pub to_int32 : ℕ → ℤ
to_int32 n = if ltb n 2147483648 then pos n else negsuc (4294967295 - n)

module _ (A : SchedApi) where
  open A use {
    State, tick_get, tick_get_millisecond, thread_yield, thread_delay, thread_mdelay, thread_self,
  }

  unfoldable pub pos_time_get : State → ℕ
  pos_time_get s = tick_get s

  unfoldable pub pos_time_get_ms : State → ℕ
  pos_time_get_ms s = tick_get_millisecond s

  unfoldable pub pos_task_yield : State → State
  pos_task_yield s = thread_yield s

  unfoldable pub pos_task_sleep : ℕ → State → State
  pos_task_sleep ticks s = thread_delay ticks s

  unfoldable pub pos_task_sleep_ms : ℕ → State → State
  pos_task_sleep_ms ms s = thread_mdelay (to_int32 ms) s

  unfoldable pub pos_get_current_task_id : State → Option ℕ
  pos_get_current_task_id s = thread_self s

  unfoldable pub pos_sched_start : State → State
  pos_sched_start s = s
