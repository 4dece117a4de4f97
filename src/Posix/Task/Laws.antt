-- ===== src/Posix/Task/Laws.antt =====
-- targets/posix/os_task.c: the number of tasks, and how long a task sleeps.
use poski.Base.{
  Bool, true, false, ℕ, ◌+◌, ◌-◌, ◌*◌, ◌/◌, ◌%◌, ◌≤◌, ◌≡◌, refl, sym, ap, ltb, u16, ◌∙◌, inl, inr,
  Bool-cases, Option, none, some, List, [], ◌∷◌, arith, ℤ, pos, ◌==ℤ◌, if◌then◌else◌,
}
use poski.Osal.ErrorCode.{is_ok}
use poski.Posix.Utils.{is_ok-map_posix, Libc, ◌>>?◌}
use poski.Posix.Time.{Timespec, nanos}
use poski.Posix.Task.{
  ThreadApi, World, calls, increment, decrement, set_priority, create_thread, count_up, count_down,
  init_chain, remove_chain, pos_task_init, pos_task_remove, sleep_loop, pos_task_sleep_ms,
}

module _ (A : ThreadApi) where
  -- A chain of calls changes the count by `f`, if it succeeds.
  abbrev Counts : (ℤ → ℤ) → Libc (World A) → Type 0
  Counts f m =
      (w : World A)
      → (m w).1.s_task_count ≡ (if (m w).0 ==ℤ pos 0 then f w.s_task_count else w.s_task_count)

  Counts-chain :
      (f : ℤ → ℤ) (m n : Libc (World A))
      → ((w : World A) → (m w).1.s_task_count ≡ w.s_task_count)
      → Counts f n
      → Counts f (m >>? n)
  Counts-chain f m n same h w = elim (Bool-cases ((m w).0 ==ℤ pos 0)) [
    | inl e ↦ rw e (h (m w).1 ∙ ap (λ c. if (n (m w).1).0 ==ℤ pos 0 then f c else c) (same w))
    | inr e ↦ rw e (rw e (same w))
  ]

  init_chain-Counts :
      (name func arg prio stack_size : ℕ)
      → Counts increment (init_chain A name func arg prio stack_size)
  unfolding init_chain
  init_chain-Counts name func arg prio stack_size =
      let bytes = if ltb stack_size stack_min then u16 stack_min else stack_size in
      let c1 = create_thread A name func arg >>? count_up A in
      let c2 = set_priority A prio >>? c1 in
      let c3 = calls A (attr_setstacksize bytes) >>? c2 in
      let c4 = calls A attr_setschedpolicy >>? c3 in
      let c5 = calls A attr_getschedparam >>? c4 in
      Counts-chain increment (calls A attr_init) c5 (λ w. refl)
        (Counts-chain increment (calls A attr_getschedparam) c4 (λ w. refl)
          (Counts-chain increment (calls A attr_setschedpolicy) c3 (λ w. refl)
            (Counts-chain increment (calls A (attr_setstacksize bytes)) c2 (λ w. refl)
              (Counts-chain increment (set_priority A prio) c1 (λ w. refl)
                (Counts-chain increment (create_thread A name func arg) (count_up A) (λ w. refl)
                  (λ w. refl))))))
    where
      open A use {stack_min, attr_init, attr_getschedparam, attr_setschedpolicy, attr_setstacksize}

  remove_chain-Counts :
      (is_null : Bool) (handle : Option ℕ) → Counts decrement (remove_chain A is_null handle)
  unfolding remove_chain
  remove_chain-Counts true handle w = refl
  remove_chain-Counts false none w = refl
  remove_chain-Counts false (some handle) w =
      Counts-chain decrement (calls A (A.cancel handle)) (count_down A) (λ v. refl) (λ v. refl) w

  -- `s_task_count` goes up exactly by the initialisations that return POS_OK.
  pub init-count :
      (is_null : Bool) (name : ℕ) (func : Option ℕ) (arg prio stack_size : ℕ) (w : World A)
      → let (e, w') = pos_task_init A is_null name func arg prio stack_size w in
        w'.s_task_count ≡ (if is_ok e then increment w.s_task_count else w.s_task_count)
  unfolding pos_task_init
  init-count true name func arg prio stack_size w = refl
  init-count false name none arg prio stack_size w = refl
  init-count false name (some f) arg prio stack_size w =
      init_chain-Counts name f arg prio stack_size w
      ∙ ap (λ b. if b then increment w.s_task_count else w.s_task_count)
          (sym (is_ok-map_posix (init_chain A name f arg prio stack_size w).0))

  -- It goes down exactly by the removals that return POS_OK.
  pub remove-count :
      (is_null : Bool) (w : World A)
      → let (e, w') = pos_task_remove A is_null w in
        w'.s_task_count ≡ (if is_ok e then decrement w.s_task_count else w.s_task_count)
  unfolding pos_task_remove
  remove-count is_null w =
      remove_chain-Counts is_null w.task.handle w
      ∙ ap (λ b. if b then decrement w.s_task_count else w.s_task_count)
          (sym (is_ok-map_posix (remove_chain A is_null w.task.handle w).0))

-- How long the thread slept: what was asked each time, less what was left when a signal came.
abbrev pub slept : List Timespec → List Timespec → ℕ
slept [] remaining = 0
slept (q ∷ requests) [] = nanos q
slept (q ∷ requests) (r ∷ remaining) = (nanos q - nanos r) + slept requests remaining

-- No signal leaves more time than was asked for.
abbrev Shrinks : Timespec → List Timespec → Type 0
Shrinks q [] = Unit
Shrinks q (r ∷ remaining) = (nanos r ≤ nanos q) × Shrinks r remaining

slept-sleep_loop :
    (q : Timespec) (remaining : List Timespec)
    → Shrinks q remaining
    → slept (sleep_loop q remaining) remaining ≡ nanos q
unfolding sleep_loop
slept-sleep_loop q [] h = refl
slept-sleep_loop q (r ∷ remaining) (le, h) = omega (arith, slept-sleep_loop r remaining h)

-- However often signals interrupt it, a sleep of `ms` milliseconds lasts as long in all.
pub slept-sleep_ms :
    (ms : ℕ) (remaining : List Timespec)
    → Shrinks (record { sec = ms / 1000; nsec = ms % 1000 * 1_000_000 }) remaining
    → slept (pos_task_sleep_ms ms remaining) remaining ≡ ms * 1_000_000
unfolding pos_task_sleep_ms
slept-sleep_ms ms remaining h = omega (arith, slept-sleep_loop _ remaining h)
