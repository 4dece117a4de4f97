-- ===== src/Zephyr/Task/Race.antt =====
-- targets/zephyr/os_task.c: pos_task_init looks for an unused stack, and then marks it, without a lock;
-- here two threads in it at a time.
use poski.Base.{ℕ, ◌≡◌, refl, Bool, true, false, Option, none, some, List, set, ltb}
use poski.Osal.ErrorCode.{PosError, enomem}
use poski.Zephyr.Task.{Task, ThreadApi, World, max_stack_size, find_unused, started, pos_task_init}

module _ (A : ThreadApi) where
  open A use {State, create}

  -- The search, which changes nothing, and what follows it.
  abbrev pub search : World A → Option ℕ
  search w = find_unused 0 w.stack_used

  pub finish : Option ℕ → Task → ℕ → ℕ → ℕ → ℕ → World A → PosError × Task × World A
  unfolding started
  finish none t name func arg prio w = (enomem, t, w)
  finish (some i) t name func arg prio w =
      let (tid, s) = create i max_stack_size func arg prio w.system in
      started A name i (set w.stack_used i true) tid s

  -- One after the other they are the function.
  pub pos_task_init-finish :
      (t : Task) (name func arg prio stack_size : ℕ) (w : World A)
      → ltb max_stack_size stack_size ≡ false
      → pos_task_init A t name func arg prio stack_size w ≡ finish (search w) t name func arg prio w
  unfolding pos_task_init finish
  pos_task_init-finish t name func arg prio stack_size w fits =
      rw fits (by_search (find_unused 0 w.stack_used))
    where
      by_search :
          (o : Option ℕ)
          → (elim o [
            | none ↦ (enomem, t, w)
            | some i ↦
                let (tid, s) = create i max_stack_size func arg prio w.system in
                started A name i (set w.stack_used i true) tid s
          ])
            ≡ finish o t name func arg prio w
      by_search none = refl
      by_search (some i) = refl

  -- If two threads search before either marks the stack that it found, both tasks get the same stack.
  pub race-same_stack :
      (t u : Task) (i name func arg prio name' func' arg' prio' : ℕ) (w : World A)
      → search w ≡ some i
      → let first = finish (search w) t name func arg prio w in
        let second = finish (search w) u name' func' arg' prio' first.2 in
        (first.1.stack ≡ some i) × (second.1.stack ≡ some i)
  unfolding finish started
  race-same_stack t u i name func arg prio name' func' arg' prio' w e =
      rw e (taken name _ _ _, taken name' _ _ _)
    where
      taken :
          (name : ℕ) (us : List Bool) (tid : Option ℕ) (s : State)
          → (started A name i us tid s).1.stack ≡ some i
      taken name us none s = refl
      taken name us (some h) s = refl
