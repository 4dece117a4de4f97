-- ===== src/Wrapper/OsTask.antt =====
-- include/poski/OsTask.h: a task, and whether it was started.
pub mod OnZephyr
use poski.Base.{ℕ, ◌≡◌, refl, Bool, true, false, Bool-cases, inl, inr, Option, if◌then◌else◌}
use poski.Osal.ErrorCode.{PosError, ok, error, is_ok}
use poski.Osal.Native.{NativeTask, NativeSched}

module _ (M : NativeTask) where
  open M use {State, remove, yield, sleep, sleep_ms, current_task_id}

  pub record OsTask : Type 0 where
    pub task : State
    pub inited : Bool

  unfoldable pub start : ℕ → Option ℕ → ℕ → ℕ → ℕ → OsTask → PosError × OsTask
  start name func arg prio stack_size t =
      let (err, s) = M.init name func arg prio stack_size t.task in
      (err, record { task = s; inited = if is_ok err then true else t.inited })

  unfoldable pub remove_it : OsTask → PosError × OsTask
  remove_it t =
      if t.inited
      then (let (err, s) = remove t.task in
          (err, record { task = s; inited = if is_ok err then false else true }))
      else (error, t)

  -- The static methods, on the state of the calling task and of the kernel.
  unfoldable pub yield_it : State → State
  yield_it s = yield s

  unfoldable pub sleep_it : ℕ → State → State
  sleep_it ms s = sleep_ms ms s

  unfoldable pub sleep_ticks : ℕ → State → State
  sleep_ticks ticks s = sleep ticks s

  unfoldable pub sleep_ms_it : ℕ → State → State
  sleep_ms_it ms s = sleep_ms ms s

  unfoldable pub get_current_task_id : State → Option ℕ
  get_current_task_id s = current_task_id s

  -- A Remove that returns POS_OK follows a Start that did, and a second one returns POS_ERROR and does
  -- nothing.
  pub remove_it-once :
      (t : OsTask)
      → (remove_it t).0 ≡ ok
      → (t.inited ≡ true) × (remove_it (remove_it t).1 ≡ (error, (remove_it t).1))
  unfolding remove_it
  remove_it-once t h = elim (Bool-cases t.inited) [
    | inl e ↦ (e, rw (e, is_ok_of (remove t.task).0 (rw e at h)) refl)
    | inr e ↦ absurd (let k = rw e at h in cc)
  ]
    where
      is_ok_of : (e : PosError) → e ≡ ok → is_ok e ≡ true
      is_ok_of e p = rw p refl

module _ (M : NativeSched) where
  open M use {State}

  unfoldable pub sched_start : State → State
  sched_start s = M.start s

  unfoldable pub sched_started : State → Bool
  sched_started s = M.started s
