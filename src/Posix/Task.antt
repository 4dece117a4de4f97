-- ===== src/Posix/Task.antt =====
-- targets/posix/os_task.c.
pub mod Laws
use poski.Base.{
  ℕ, zero, suc, ◌+◌, ◌-◌, ◌*◌, ◌/◌, ◌%◌, ◌≡◌, Bool, true, false, Option, none, some, List, [], ◌∷◌,
  ℤ, pos, negsuc, ◌==ℤ◌, ltb, u16, u8, if◌then◌else◌, Outcome, done,
}
use poski.Osal.ErrorCode.{PosError, invalid_param}
use poski.Posix.Utils.{map_posix_to_osal_error, Libc, einval_no, ◌>>?◌}
use poski.Posix.Time.{Timespec, pos_time_ticks_to_ms}

-- `struct pos_task`: `handle` is the thread, once created; functions, arguments and names are numbers.
pub record Task : Type 0 where
  pub handle : Option ℕ
  pub sched_priority : ℕ
  pub name : ℕ

-- pthread.h, on the state of the system; `create` also writes the handle.
pub record ThreadApi : Type 1 where
  pub State : Type 0
  pub stack_min : ℕ  -- PTHREAD_STACK_MIN
  pub attr_init : Libc State
  pub attr_getschedparam : Libc State
  pub attr_setschedpolicy : Libc State
  pub attr_setstacksize : ℕ → Libc State
  pub attr_setschedparam : ℕ → Libc State
  pub create : ℕ → ℕ → State → ℤ × Option ℕ × State
  pub cancel : ℕ → Libc State

-- `s_task_count` is an `int`; the overflow at 2^31 tasks is left out.
abbrev pub increment : ℤ → ℤ
increment (pos n) = pos (n + 1)
increment (negsuc zero) = pos 0
increment (negsuc (suc n)) = negsuc n

abbrev pub decrement : ℤ → ℤ
decrement (pos zero) = negsuc 0
decrement (pos (suc n)) = pos n
decrement (negsuc n) = negsuc (n + 1)

-- The conversion of an `int` to `uint8_t`.
abbrev pub to_u8 : ℤ → ℕ
to_u8 (pos n) = u8 n
to_u8 (negsuc n) = 255 - u8 n

module _ (A : ThreadApi) where
  open A use {
    State, stack_min, attr_init, attr_getschedparam, attr_setschedpolicy, attr_setstacksize,
    attr_setschedparam, create, cancel,
  }

  pub record World : Type 0 where
    pub system : State
    pub task : Task
    pub s_task_count : ℤ

  -- A call of the system that leaves the task's fields alone.
  abbrev pub calls : Libc State → Libc World
  calls f w = let (ret, s) = f w.system in (ret, record w { system = s })

  unfoldable pub set_priority : ℕ → Libc World
  set_priority prio w =
      calls (attr_setschedparam prio) (record w { task = record w.task { sched_priority = prio } })

  unfoldable pub create_thread : ℕ → ℕ → ℕ → Libc World
  create_thread name func arg w =
      let (ret, handle, s) = create func arg w.system in
      (ret, record w { system = s; task = record w.task { name = name; handle = handle } })

  unfoldable pub count_up : Libc World
  count_up w = (pos 0, record w { s_task_count = increment w.s_task_count })

  unfoldable pub count_down : Libc World
  count_down w = (pos 0, record w { s_task_count = decrement w.s_task_count })

  unfoldable pub init_chain : ℕ → ℕ → ℕ → ℕ → ℕ → Libc World
  unfolding set_priority create_thread count_up
  init_chain name func arg prio stack_size =
      calls attr_init
      >>? calls attr_getschedparam
      >>? calls attr_setschedpolicy
      >>? calls (attr_setstacksize (if ltb stack_size stack_min then u16 stack_min else stack_size))
      >>? set_priority prio
      >>? create_thread name func arg
      >>? count_up

  -- `is_null` is `t == NULL`, and `none` a null function.
  unfoldable pub pos_task_init : Bool → ℕ → Option ℕ → ℕ → ℕ → ℕ → World → PosError × World
  unfolding init_chain
  pos_task_init is_null name func arg prio stack_size w =
      if is_null then (invalid_param, w) else (elim func [
        | none ↦ (invalid_param, w)
        | some f ↦
            let (ret, w') = init_chain name f arg prio stack_size w in
            (map_posix_to_osal_error ret, w')
      ])

  unfoldable pub remove_chain : Bool → Option ℕ → Libc World
  unfolding count_down
  remove_chain true handle w = (einval_no, w)
  remove_chain false none w = (einval_no, w)
  remove_chain false (some handle) w = (calls (cancel handle) >>? count_down) w

  unfoldable pub pos_task_remove : Bool → World → PosError × World
  unfolding remove_chain
  pos_task_remove is_null w =
      let (ret, w') = remove_chain is_null w.task.handle w in (map_posix_to_osal_error ret, w')

  unfoldable pub pos_task_count : World → ℕ
  pos_task_count w = to_u8 w.s_task_count

-- The loop of `pos_task_sleep_ms`: `remaining` holds what `nanosleep` reports each time that a signal
-- interrupts it, and the result is what is asked of it each time.
unfoldable pub sleep_loop : Timespec → List Timespec → List Timespec
sleep_loop request [] = request ∷ []
sleep_loop request (r ∷ remaining) = request ∷ sleep_loop r remaining

unfoldable pub pos_task_sleep_ms : ℕ → List Timespec → List Timespec
unfolding sleep_loop
pos_task_sleep_ms ms remaining =
    sleep_loop (record { sec = ms / 1000; nsec = ms % 1000 * 1_000_000 }) remaining

unfoldable pub pos_task_sleep : ℕ → List Timespec → List Timespec
unfolding pos_task_sleep_ms pos_time_ticks_to_ms
pos_task_sleep ticks remaining = pos_task_sleep_ms (pos_time_ticks_to_ms ticks) remaining

unfoldable pub pos_sched_started : Bool
pos_sched_started = true

-- sched.h and pthread.h, on the state of the system.
pub record SchedApi : Type 1 where
  pub State : Type 0
  pub sched_yield : State → State
  pub pthread_self : State → ℕ

module _ (S : SchedApi) where
  open S use {State, sched_yield, pthread_self}

  unfoldable pub pos_get_current_task_id : State → ℕ
  pos_get_current_task_id s = pthread_self s

  unfoldable pub pos_task_yield : State → State
  pos_task_yield s = sched_yield s

  -- The state after so many rounds of the loop, which has no end; not on Apple's systems.
  unfoldable pub pos_sched_start : ℕ → State → State
  unfolding pos_task_yield
  pos_sched_start zero s = s
  pos_sched_start (suc rounds) s = pos_sched_start rounds (pos_task_yield s)
