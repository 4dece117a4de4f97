-- ===== src/RtThread/Task/Laws.antt =====
-- The creation of tasks by targets/rt-thread/os_task.c.
use poski.Base.{
  ℕ, ◌≡◌, ◌↔◌, refl, sym, Bool, true, false, Option, none, some, ◌==ℤ◌, if◌then◌else◌, done, subst,
  some_eq,
}
use poski.Osal.ErrorCode.{ok, error}
use poski.RtThread.Sync.{rt_eok}
use poski.RtThread.Task.{Task, ThreadApi, start_thread, pos_task_init, pos_task_dispatch}

module _ (A : ThreadApi) where
  open A use {State, create, startup}

  -- A task is initialised with POS_OK exactly if the kernel creates its thread and starts it; whatever
  -- the result, what the thread would call is the function with its argument.
  pub init-ok_iff :
      (task : Task) (name f arg prio stack_size : ℕ) (s : State)
      → let (e, after, s') = pos_task_init A (some task) name (some f) arg prio stack_size s in
        let (handle, s1) = create name f arg stack_size prio 10 s in
        ((e ≡ ok) ↔ ((h : ℕ) × (handle ≡ some h) × ((startup h s1).0 ==ℤ rt_eok ≡ true)))
        × (pos_task_dispatch after ≡ done (f, arg))
  unfolding pos_task_init start_thread pos_task_dispatch
  init-ok_iff task name f arg prio stack_size s = (
    by_handle (create name f arg stack_size prio 10 s).0 (create name f arg stack_size prio 10 s).1,
    refl,
  )
    where
      result : (b : Bool) → ((if b then ok else error) ≡ ok) ↔ (b ≡ true)
      result true = (λ h. refl, λ h. refl)
      result false = (λ h. cc, λ h. cc)

      by_handle :
          (handle : Option ℕ) (s1 : State)
          → ((if (start_thread A handle s1).0 ==ℤ rt_eok then ok else error) ≡ ok)
            ↔ ((h : ℕ) × (handle ≡ some h) × ((startup h s1).0 ==ℤ rt_eok ≡ true))
      by_handle none s1 = (λ h. cc, λ p. let e = p.1 in cc)
      by_handle (some h) s1 = (
        λ e. (h, refl, (result ((startup h s1).0 ==ℤ rt_eok)).0 e),
        λ (h', same, up).
            (result ((startup h s1).0 ==ℤ rt_eok)).1
              (subst (λ x. (startup x s1).0 ==ℤ rt_eok ≡ true) (some_eq h' h (sym same)) up),
      )
