-- ===== src/Wrapper/Tests/Tasks.antt =====
-- Two objects of class OsTask over the tasks of the Zephyr port.
use poski.Base.{ℕ, ◌≡◌, refl, true, false, some, [], ◌∷◌, replicate}
use poski.Osal.ErrorCode.{PosError, ok, error}
use poski.Zephyr.Task.{
  Task, World, pos_task_init, pos_task_remove, find_unused, free_stack, started,
}
use poski.Zephyr.Task.Owned.{Owned}
use poski.Zephyr.Tests.Tasks.{threads, fresh, at_boot}
use poski.Wrapper.OsTask
use poski.Wrapper.OsTask.OnZephyr.{
  Object, native, with_world, Uses, boot_objects, start_object, remove_object, Uses-Owned,
}

abbrev new : Object
new = record { task = fresh; inited = false }

abbrev task : ℕ → ℕ → Task
task h i = record { tid = some h; stack = some i }

abbrev running : ℕ → ℕ → Object
running h i = record { task = task h i; inited = true }

abbrev removed : Object
removed = record { task = task 1 0; inited = false }

abbrev none_used : World threads
none_used = record { system = 2; stack_used = replicate 10 false }

abbrev one_used : ℕ → World threads
one_used s = record { system = s; stack_used = true ∷ replicate 9 false }

-- The first object is started and removed twice, and then the second one is started.
removed_twice-Uses : Uses threads (one_used 3) (removed ∷ running 2 0 ∷ [])
unfolding OsTask.start OsTask.remove_it pos_task_init pos_task_remove find_unused free_stack started
removed_twice-Uses =
    start_object (removed ∷ []) new []
      (remove_object [] removed (new ∷ [])
        (remove_object [] (running 1 0) (new ∷ [])
          (start_object [] new (new ∷ []) (boot_objects 1 (new ∷ new ∷ []) (refl, (refl, tt))) refl
            5 (some 11) 12 2 1024 ok (with_world threads (running 1 0) (one_used 2)) refl)
          ok (with_world threads removed none_used) refl)
        error (with_world threads removed none_used) refl)
      refl 6 (some 11) 13 2 2048 ok (with_world threads (running 2 0) (one_used 3)) refl

Uses-Owned_example : Owned (true ∷ replicate 9 false) (task 2 0 ∷ [])
Uses-Owned_example = Uses-Owned threads removed_twice-Uses

-- A second Start takes a second stack; the first one stays marked after the removal.
restarted :
    ◌≡◌ {A = PosError × OsTask.OsTask (native threads)}
      (OsTask.remove_it
        (native threads)
        (OsTask.start
          (native threads)
          5
          (some 11)
          12
          2
          1024
          (OsTask.start
            (native threads)
            5
            (some 11)
            12
            2
            1024
            (with_world threads new at_boot)).1).1)
      (ok, with_world threads (record { task = task 2 1; inited = false }) (one_used 3))
unfolding OsTask.start OsTask.remove_it pos_task_init pos_task_remove find_unused free_stack started
restarted = refl
