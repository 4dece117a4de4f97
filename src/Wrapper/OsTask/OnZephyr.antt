-- ===== src/Wrapper/OsTask/OnZephyr.antt =====
-- OsTask over the tasks of targets/zephyr/os_task.c: objects of class OsTask that share the ten
-- stacks.
use poski.Base.{
  ℕ, ◌≡◌, refl, sym, ap, ◌∙◌, subst, Bool, true, false, Bool-cases, inl, inr, Option, none, some,
  List, [], ◌∷◌, ◌++◌, arith, length-append, replicate, if◌then◌else◌,
}
use poski.Osal.ErrorCode.{PosError, is_ok}
use poski.Osal.Native.{NativeTask}
use poski.Zephyr.Task.{
  Task, ThreadApi, World, max_tasks, pos_task_init, pos_task_remove, pos_task_yield, pos_task_sleep,
  pos_task_sleep_ms, pos_get_current_task_id,
}
use poski.Zephyr.Task.Owned.{AllStacked, Stacked, users-append, Owned}
use poski.Zephyr.Task.Stacks.{Reach-Owned, boot, After, init-After, remove-Owned}
use poski.Wrapper.OsTask
use poski.Wrapper.OsTask.{OsTask}

-- A function pointer that is NULL is 0.
abbrev pub address : Option ℕ → ℕ
address none = 0
address (some f) = f

-- The members of an object of class OsTask.
pub record Object : Type 0 where
  pub task : Task
  pub inited : Bool

-- The tasks of the started objects.
abbrev pub live : List Object → List Task
live [] = []
live (o ∷ os) = if o.inited then o.task ∷ live os else live os

live-append : (xs ys : List Object) → live (xs ++ ys) ≡ live xs ++ live ys
live-append [] ys = refl
live-append (o ∷ xs) ys = elim (Bool-cases o.inited) [
  | inl e ↦ rw e (ap (◌∷◌ o.task) (live-append xs ys))
  | inr e ↦ rw e (live-append xs ys)
]

live-started : (o : Object) (os : List Object) → o.inited ≡ true → live (o ∷ os) ≡ o.task ∷ live os
live-started o os e = rw e refl

live-new : (o : Object) (os : List Object) → o.inited ≡ false → live (o ∷ os) ≡ live os
live-new o os e = rw e refl

AllStacked-insert :
    (xs : List Task) (t : Task) (ys : List Task)
    → Stacked t
    → AllStacked (xs ++ ys)
    → AllStacked (xs ++ t ∷ ys)
AllStacked-insert [] t ys s h = (s, h)
AllStacked-insert (x ∷ xs) t ys s (k, h) = (k, AllStacked-insert xs t ys s h)

-- Owning does not depend on the order of the tasks.
Owned-insert :
    {us : List Bool} (xs : List Task) (t : Task) (ys : List Task)
    → Owned us (t ∷ (xs ++ ys))
    → Owned us (xs ++ t ∷ ys)
Owned-insert xs t ys o = record {
  sized = o.sized;
  exclusive = λ i. omega (arith, users-append i xs (t ∷ ys), users-append i xs ys) ∙ o.exclusive i;
  counted = omega (arith, o.counted, length-append {0} xs (t ∷ ys), length-append {0} xs ys);
  stacked = AllStacked-insert xs t ys o.stacked.0 o.stacked.1;
}

module _ (A : ThreadApi) where
  open A use {State}

  abbrev pub native : NativeTask
  native = record {
    State = Task × World A;
    init = λ name func arg prio stack_size s.
        let (e, t, w) = pos_task_init A s.0 name (address func) arg prio stack_size s.1 in
        (e, (t, w));
    remove = λ s. let (e, w) = pos_task_remove A s.0 s.1 in (e, (s.0, w));
    yield = λ s. (s.0, record s.1 { system = pos_task_yield A s.1.system });
    sleep = λ n s. (s.0, record s.1 { system = pos_task_sleep A n s.1.system });
    sleep_ms = λ ms s. (s.0, record s.1 { system = pos_task_sleep_ms A ms s.1.system });
    current_task_id = λ s. pos_get_current_task_id A s.1.system;
  }

  -- An object and the state that all share, and back.
  abbrev pub with_world : Object → World A → OsTask native
  with_world o w = record { task = (o.task, w); inited = o.inited }

  abbrev pub object : OsTask native → Object
  object t = record { task = t.task.0; inited = t.inited }

  abbrev pub AllNew : List Object → Type 0
  AllNew [] = Unit
  AllNew (o ∷ os) = (o.inited ≡ false) × AllNew os

  -- Start is called on objects that are not started; Remove at any time.
  pub data Uses : World A → List Object → Type 0 where
    boot_objects :
        (s : State) (os : List Object)
        → AllNew os
        → Uses (record { system = s; stack_used = replicate max_tasks false }) os
    start_object :
        {w : World A} (xs : List Object) (o : Object) (ys : List Object)
        → Uses w (xs ++ o ∷ ys)
        → o.inited ≡ false
        → (name : ℕ) (func : Option ℕ) (arg prio stack_size : ℕ)
        → (e : PosError) (t : OsTask native)
        → OsTask.start native name func arg prio stack_size (with_world o w) ≡ (e, t)
        → Uses t.task.1 (xs ++ object t ∷ ys)
    remove_object :
        {w : World A} (xs : List Object) (o : Object) (ys : List Object)
        → Uses w (xs ++ o ∷ ys)
        → (e : PosError) (t : OsTask native) → OsTask.remove_it native (with_world o w) ≡ (e, t)
        → Uses t.task.1 (xs ++ object t ∷ ys)

  abbrev Stacks : List Object → List Object → PosError × OsTask native → Type 0
  Stacks xs ys p = Owned p.1.task.1.stack_used (live (xs ++ object p.1 ∷ ys))

  -- An object that was not started takes its task.
  placed :
      (xs ys : List Object) (o : Object) (e : PosError) (t : Task) (w : World A)
      → o.inited ≡ false
      → After A (live xs ++ live ys) (e, t, w)
      → Stacks xs ys (e, record { task = (t, w); inited = if is_ok e then true else o.inited })
  placed xs ys o e t w new h = elim (Bool-cases (is_ok e)) [
    | inl q ↦
        let k : Owned w.stack_used (t ∷ (live xs ++ live ys)) = rw q at h in
        rw q (
          subst (Owned w.stack_used)
            (sym (live-append xs (record { task = t; inited = true } ∷ ys)))
            (Owned-insert (live xs) t (live ys) k))
    | inr q ↦
        let k : Owned w.stack_used (live xs ++ live ys) = rw q at h in
        rw (q, new)
          (subst (Owned w.stack_used)
            (sym (live-append xs (record { task = t; inited = false } ∷ ys))) k)
  ]

  others :
      (xs : List Object) (o : Object) (ys : List Object)
      → o.inited ≡ false
      → live (xs ++ o ∷ ys) ≡ live xs ++ live ys
  others xs o ys new = live-append xs (o ∷ ys) ∙ ap (◌++◌ (live xs)) (live-new o ys new)

  start-Stacks :
      (xs : List Object) (o : Object) (ys : List Object) (w : World A)
      → o.inited ≡ false
      → (name : ℕ) (func : Option ℕ) (arg prio stack_size : ℕ)
      → Owned w.stack_used (live (xs ++ o ∷ ys))
      → Stacks xs ys (OsTask.start native name func arg prio stack_size (with_world o w))
  unfolding OsTask.start
  start-Stacks xs o ys w new name func arg prio stack_size h =
      placed xs ys o _ _ (pos_task_init A o.task name (address func) arg prio stack_size w).2 new (
        init-After A w (live xs ++ live ys) o.task name (address func) arg prio stack_size
          (subst (Owned w.stack_used) (others xs o ys new) h))

  remove-Stacks :
      (xs : List Object) (o : Object) (ys : List Object) (w : World A)
      → Owned w.stack_used (live (xs ++ o ∷ ys))
      → Stacks xs ys (OsTask.remove_it native (with_world o w))
  unfolding OsTask.remove_it pos_task_remove
  remove-Stacks xs o ys w h = elim (Bool-cases o.inited) [
    | inl q ↦
        let k : Owned w.stack_used (live xs ++ o.task ∷ live ys) =
          subst (Owned w.stack_used)
            (live-append xs (o ∷ ys) ∙ ap (◌++◌ (live xs)) (live-started o ys q)) h in
        rw q (
          subst (Owned (pos_task_remove A o.task w).1.stack_used)
            (sym (live-append xs (record { task = o.task; inited = false } ∷ ys)))
            (remove-Owned A w (live xs) o.task (live ys) k))
    | inr q ↦ rw q (
        subst (Owned w.stack_used)
          (others xs o ys q ∙ sym (live-append xs (record { task = o.task; inited = false } ∷ ys)))
          h)
  ]

  none_live : (os : List Object) → AllNew os → live os ≡ []
  none_live [] h = refl
  none_live (o ∷ os) (e, h) = live-new o os e ∙ none_live os h

  -- For any objects of class OsTask, if Start is called on objects that are not started and Remove at
  -- any time, also on one that was not started or is removed already, each of the ten stacks belongs to
  -- the task of one started object if it is marked as used, and to none otherwise.
  pub Uses-Owned : {w : World A} {os : List Object} → Uses w os → Owned w.stack_used (live os)
  Uses-Owned (boot_objects s os new) =
      subst (Owned (replicate max_tasks false)) (sym (none_live os new)) (Reach-Owned A (boot s))
  Uses-Owned (start_object {w} xs o ys u new name func arg prio stack_size e t p) =
      subst (Stacks xs ys) p
        (start-Stacks xs o ys w new name func arg prio stack_size (Uses-Owned u))
  Uses-Owned (remove_object {w} xs o ys u e t p) =
      subst (Stacks xs ys) p (remove-Stacks xs o ys w (Uses-Owned u))
