-- ===== src/Zephyr/Task.antt =====
-- targets/zephyr/os_task.c: tasks that take their stack from an array of ten.
pub mod Slots
pub mod Owned
pub mod Stacks
pub mod Race
use poski.Base.{
  ℕ, zero, suc, Bool, true, false, Option, none, some, List, [], ◌∷◌, set, ltb, ◌==◌, if◌then◌else◌,
}
use poski.Zephyr.Utils.{Duration, ticks, span}
use poski.Osal.ErrorCode.{PosError, ok, enomem, einval, error}

abbrev pub max_tasks : ℕ
max_tasks = 10

-- STACK_SIZE
abbrev pub max_stack_size : ℕ
max_stack_size = 2048

-- `struct pos_task`: the thread, and the stack as its index in `s_task_stacks`.
pub record Task : Type 0 where
  pub tid : Option ℕ
  pub stack : Option ℕ

-- The kernel's threads: `create` is given the stack, its size, the function, its argument and the
-- priority.
pub record ThreadApi : Type 1 where
  pub State : Type 0
  pub create : ℕ → ℕ → ℕ → ℕ → ℕ → State → Option ℕ × State
  pub name_set : Option ℕ → ℕ → State → State
  pub abort : Option ℕ → State → State
  pub k_yield : State → State
  pub k_sleep : Duration → State → State
  pub k_current_get : State → Option ℕ

-- The loop that looks for an unused stack, from index `i` on.
unfoldable pub find_unused : ℕ → List Bool → Option ℕ
find_unused i [] = none
find_unused i (used ∷ rest) = let later = find_unused (suc i) rest in if used then later else some i

-- The loop that frees the stack of a removed task.
unfoldable pub free_stack : Option ℕ → ℕ → List Bool → List Bool
free_stack stack i [] = []
free_stack none i (used ∷ rest) = used ∷ free_stack none (suc i) rest
free_stack (some j) i (used ∷ rest) =
    let later = free_stack (some j) (suc i) rest in if j == i then false ∷ rest else used ∷ later

module _ (A : ThreadApi) where
  open A use {State, create, name_set, abort, k_yield, k_sleep, k_current_get}

  pub record World : Type 0 where
    pub system : State
    pub stack_used : List Bool

  -- What follows the creation of the thread, with the stack `i` marked.
  unfoldable pub started : ℕ → ℕ → List Bool → Option ℕ → State → PosError × Task × World
  started name i used (some h) s = (
    ok,
    record { tid = some h; stack = some i },
    record { system = name_set (some h) name s; stack_used = used },
  )
  started name i used none s = (
    error,
    record { tid = none; stack = some i },
    record { system = s; stack_used = set used i false },
  )

  unfoldable pub pos_task_init : Task → ℕ → ℕ → ℕ → ℕ → ℕ → World → PosError × Task × World
  unfolding started
  pos_task_init t name func arg prio stack_size w =
      if ltb max_stack_size stack_size then (einval, t, w) else elim (find_unused 0 w.stack_used) [
        | none ↦ (enomem, t, w)
        | some i ↦
            let (tid, s) = create i max_stack_size func arg prio w.system in
            started name i (set w.stack_used i true) tid s
      ]

  unfoldable pub pos_task_remove : Task → World → PosError × World
  pos_task_remove t w =
      (ok, record { system = abort t.tid w.system; stack_used = free_stack t.stack 0 w.stack_used })

  unfoldable pub pos_task_yield : State → State
  pos_task_yield s = k_yield s

  unfoldable pub pos_task_sleep : ℕ → State → State
  pos_task_sleep n s = k_sleep (ticks n) s

  unfoldable pub pos_task_sleep_ms : ℕ → State → State
  pos_task_sleep_ms ms s = k_sleep (span ms) s

  unfoldable pub pos_get_current_task_id : State → Option ℕ
  pos_get_current_task_id s = k_current_get s

-- `pos_task_wrapper`, which the kernel starts with the function and its argument, calls one with the
-- other.
unfoldable pub pos_task_wrapper : ℕ → ℕ → ℕ → ℕ × ℕ
pos_task_wrapper p1 p2 p3 = (p1, p2)
