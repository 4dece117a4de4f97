-- ===== src/RtThread/Task.antt =====
-- targets/rt-thread/os_task.c and os_timer.c, and the state of a timer of os_port.h.
pub mod Laws
use poski.Base.{
  ℕ, Bool, Option, none, some, ◌==◌, ℤ, pos, ◌==ℤ◌, if◌then◌else◌, Outcome, done, assert_failed,
  ◌>>=◌,
}
use poski.Osal.ErrorCode.{PosError, ok, invalid_param, error}
use poski.RtThread.Sync.{rt_eok, handle_of, pos_time_ms_to_ticks}

-- `struct pos_task`; functions and arguments are numbers, and `none` is null.
pub record Task : Type 0 where
  pub handle : Option ℕ
  pub func : Option ℕ
  pub arg : ℕ

-- Threads of the kernel: `create` is given the name, the function, its argument, the stack size, the
-- priority and the time slice.
pub record ThreadApi : Type 1 where
  pub State : Type 0
  pub create : ℕ → ℕ → ℕ → ℕ → ℕ → ℕ → State → Option ℕ × State
  pub startup : ℕ → State → ℤ × State
  pub delete : Option ℕ → State → ℤ × State

module _ (A : ThreadApi) where
  open A use {State, create, startup, delete}

  -- The thread is started if it was created; `err` is RT_ERROR before.
  unfoldable pub start_thread : Option ℕ → State → ℤ × State
  start_thread none s = (pos 1, s)
  start_thread (some h) s = startup h s

  unfoldable pub pos_task_init :
      Option Task → ℕ → Option ℕ → ℕ → ℕ → ℕ → State → PosError × Option Task × State
  unfolding start_thread
  pos_task_init none name func arg prio stack_size s = (invalid_param, none, s)
  pos_task_init (some task) name none arg prio stack_size s = (invalid_param, some task, s)
  pos_task_init (some task) name (some f) arg prio stack_size s =
      let (handle, s1) = create name f arg stack_size prio 10 s in
      let (err, s2) = start_thread handle s1 in
      (
        if err ==ℤ rt_eok then ok else error,
        some (record { handle = handle; func = some f; arg = arg }),
        s2,
      )

  unfoldable pub pos_task_remove : Task → State → PosError × State
  pos_task_remove t s =
      let (err, s') = delete t.handle s in (if err ==ℤ rt_eok then ok else error, s')

unfoldable pub pos_task_dispatch : Option Task → Outcome (ℕ × ℕ)
pos_task_dispatch none = assert_failed
pos_task_dispatch (some task) = elim task.func [
  | none ↦ assert_failed
  | some f ↦ done (f, task.arg)
]

-- `struct pos_timer`
pub record Timer : Type 0 where
  pub handle : Option ℕ
  pub func : ℕ
  pub arg : ℕ

-- Timers of the kernel, and the three controls that are used.
pub record TimerApi : Type 1 where
  pub State : Type 0
  pub create : ℕ → ℕ → ℕ → State → Option ℕ × State
  pub set_time : Option ℕ → ℕ → State → State
  pub get_remain_time : Option ℕ → State → ℕ
  pub is_activated : ℕ → State → Bool
  pub start : Option ℕ → State → State

module _ (A : TimerApi) where
  open A use {State, create, set_time, get_remain_time, is_activated, start}

  unfoldable pub pos_timer_init : ℕ → ℕ → State → PosError × Timer × State
  pos_timer_init tm_cb tm_arg s =
      let (handle, s') = create tm_cb tm_arg 10 s in
      (ok, record { handle = handle; func = tm_cb; arg = tm_arg }, s')

  -- `ticks` is unsigned, so the test for a negative number never holds.
  unfoldable pub pos_timer_start : Timer → ℕ → State → PosError × State
  pos_timer_start timer ticks s =
      let n = if ticks == 0 then 1 else ticks in
      (ok, start timer.handle (set_time timer.handle n s))

  -- At `rate` ticks a second.
  unfoldable pub pos_timer_start_ms : ℕ → Timer → ℕ → State → PosError × State
  unfolding pos_timer_start
  pos_timer_start_ms rate timer duration s =
      pos_timer_start timer (pos_time_ms_to_ticks rate duration) s

  -- `now` is only the place that the kernel writes to.
  unfoldable pub pos_timer_remaining_ticks : Timer → ℕ → State → ℕ
  pos_timer_remaining_ticks timer now s = get_remain_time timer.handle s

  unfoldable pub pos_timer_is_active : Timer → State → Outcome Bool
  pos_timer_is_active tm s = handle_of tm.handle >>= λ h. done (is_activated h s)

unfoldable pub pos_timer_arg_get : Timer → ℕ
pos_timer_arg_get timer = timer.arg
