-- ===== src/Freertos/Task.antt =====
-- targets/freertos/os_task.c.
use poski.Base.{
  ℕ, ◌/◌, ◌≡◌, refl, Bool, Option, none, some, if◌then◌else◌, Outcome, done, assert_failed,
}
use poski.Osal.ErrorCode.{PosError, ok, enomem, invalid_param}

-- `struct pos_task`; functions and arguments are numbers; `none` is a null function.
pub record Task : Type 0 where
  pub handle : Option ℕ
  pub func : Option ℕ
  pub arg : ℕ

-- What `pos_task_dispatch` calls: the function and its argument.
unfoldable pub pos_task_dispatch : Option Task → Outcome (ℕ × ℕ)
pos_task_dispatch none = assert_failed
pos_task_dispatch (some task) = elim task.func [
  | none ↦ assert_failed
  | some f ↦ done (f, task.arg)
]

-- `xTaskCreate` of task.h: name, words of stack, argument and priority; it passes or not, and writes
-- the handle.
pub record TaskApi : Type 1 where
  pub State : Type 0
  pub base_size : ℕ  -- sizeof(BaseType_t)
  pub create : ℕ → ℕ → ℕ → State → Bool × Option ℕ × State

module _ (A : TaskApi) where
  open A use {State, base_size, create}

  unfoldable pub pos_task_init :
      Option Task → ℕ → Option ℕ → ℕ → ℕ → ℕ → State → PosError × Option Task × State
  pos_task_init none name func arg prio stack_size s = (invalid_param, none, s)
  pos_task_init (some task) name none arg prio stack_size s = (invalid_param, some task, s)
  pos_task_init (some task) name (some f) arg prio stack_size s =
      let (pass, handle, s') = create name (stack_size / base_size) prio s in
      (if pass then ok else enomem, some (record { handle = handle; func = some f; arg = arg }), s')

  -- A task that is initialised with POS_OK calls its function with its argument; the assertions hold.
  pub init-dispatch :
      (task : Option Task) (name : ℕ) (func : Option ℕ) (arg prio stack_size : ℕ) (s : State)
      → let (e, after, s') = pos_task_init task name func arg prio stack_size s in
        e ≡ ok → (f : ℕ) × (func ≡ some f) × (pos_task_dispatch after ≡ done (f, arg))
  unfolding pos_task_init pos_task_dispatch
  init-dispatch none name func arg prio stack_size s h = absurd (cc)
  init-dispatch (some task) name none arg prio stack_size s h = absurd (cc)
  init-dispatch (some task) name (some f) arg prio stack_size s h = (f, refl, refl)
