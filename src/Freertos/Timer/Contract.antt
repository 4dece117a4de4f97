-- ===== src/Freertos/Timer/Contract.antt =====
-- The timers of targets/freertos/os_timer.c and os_port.h against the contract of
-- include/poski/osal/os_timer.h, used by tasks of a kernel that carries out every command.
use poski.Base.{
  ℕ, ◌<◌, ◌≡◌, refl, Bool, true, false, some, none, Option, Outcome, done, ◌>>=◌, ◌==◌,
  if◌then◌else◌,
}
use poski.Osal.Timer.{Callback, OneShot}
use poski.Freertos.Timer.{
  TimerApi, Timer, pos_timer_start, pos_timer_stop, pos_timer_cb, pos_timer_arg_set,
}

-- What the calls need of the kernel: it runs tasks, and its queue of commands is never full.
pub record Accepts (A : TimerApi) : Type 0 where
  pub task : (s : A.State) → A.in_isr s ≡ false
  pub stops : (h : ℕ) (s : A.State) → (A.stop h s).0 ≡ true
  pub changes : (h n : ℕ) (s : A.State) → (A.change_period h n s).0 ≡ true
  pub resets : (h : ℕ) (s : A.State) → (A.reset h s).0 ≡ true

module _ (A : TimerApi) (K : Accepts A) where
  open A use {State, active, stop_lem, reset_lem}
  open K use {task, stops, resets}

  abbrev pub Object : Type 0
  Object = Timer × State

  abbrev pub start : ℕ → Object → Outcome Object
  start n o = pos_timer_start A o.0 n o.1 >>= λ p. done (o.0, p.1)

  abbrev pub stop : Object → Outcome Object
  stop o = pos_timer_stop A o.0 o.1 >>= λ p. done (o.0, p.1)

  abbrev pub arg_set : ℕ → Object → Object
  arg_set arg o = (pos_timer_arg_set o.0 arg, o.1)

  abbrev pub expire : Object → Outcome (Callback × Object)
  expire o = pos_timer_cb A o.0 o.1 >>= λ p. done (p.0, (o.0, p.1))

  abbrev pub IsReady : Object → Type 0
  IsReady o = (h : ℕ) × (o.0.handle ≡ some h)

  abbrev pub callback : Object → Callback
  callback o = (o.0.func, o.0.arg)

  abbrev pub is_running : Option ℕ → State → Bool
  is_running none s = false
  is_running (some h) s = active h s

  pub start_lem :
      (n : ℕ) (o : Object)
      → 0 < n
      → IsReady o
      → (o' : Object) × (start n o ≡ done o')
        × IsReady o'
        × (is_running o'.0.handle o'.1 ≡ true)
        × (callback o' ≡ callback o)
  unfolding pos_timer_start
  start_lem n o pos (h, e) =
      let s1 = (A.stop h o.1).1 in
      let s2 = (A.change_period h (if n == 0 then 1 else n) s1).1 in
      (
        (o.0, (A.reset h s2).1),
        rw (e, task o.1) refl,
        (h, e),
        rw e (reset_lem h s2 (resets h s2)).0,
        refl,
      )

  pub stop_object :
      (o : Object)
      → IsReady o
      → (o' : Object) × (stop o ≡ done o')
        × IsReady o'
        × (is_running o'.0.handle o'.1 ≡ false)
        × (callback o' ≡ callback o)
  unfolding pos_timer_stop
  stop_object o (h, e) =
      ((o.0, (A.stop h o.1).1), rw e refl, (h, e), rw e ((stop_lem h o.1).0 (stops h o.1)), refl)

  pub arg_lem :
      (arg : ℕ) (o : Object)
      → IsReady o
      → IsReady (arg_set arg o)
        × (is_running (arg_set arg o).0.handle (arg_set arg o).1 ≡ is_running o.0.handle o.1)
        × (callback (arg_set arg o) ≡ ((callback o).0, arg))
  unfolding pos_timer_arg_set
  arg_lem arg o r = (r, refl, refl)

  -- The callback of the kernel stops the timer.
  pub expire_lem :
      (o : Object)
      → IsReady o
      → is_running o.0.handle o.1 ≡ true
      → (o' : Object) × (expire o ≡ done (callback o, o'))
        × IsReady o'
        × (is_running o'.0.handle o'.1 ≡ false)
        × (callback o' ≡ callback o)
  unfolding pos_timer_cb pos_timer_stop
  expire_lem o (h, e) b =
      ((o.0, (A.stop h o.1).1), rw e refl, (h, e), rw e ((stop_lem h o.1).0 (stops h o.1)), refl)

  abbrev pub freertos_one_shot : OneShot Object start stop arg_set expire
  freertos_one_shot = record {
    IsReady = IsReady;
    active = λ o. is_running o.0.handle o.1;
    callback = callback;
    start_lem = start_lem;
    stop_lem = stop_object;
    arg_lem = arg_lem;
    expire_lem = expire_lem;
  }
