-- ===== src/Posix/Timer/Contract.antt =====
-- The timers of targets/posix/os_timer.c against the contract of include/poski/osal/os_timer.h, on a
-- system that accepts every setting of a timer.
use poski.Base.{
  ℕ, u32, arith, ◌+◌, ◌<◌, ◌≡◌, refl, ◌∙◌, true, false, some, pos, ◌==◌, if◌then◌else◌, Outcome,
  done, ◌>>=◌,
}
use poski.Osal.Timer.{Callback, OneShot}
use poski.Posix.Time.{pos_time_get}
use poski.Posix.Timer.{
  TimerApi, Timer, Itimerspec, zero_time, is_zero, expiry, settime, pos_timer_start, pos_timer_stop,
  pos_timer_cb, pos_timer_arg_set,
}
use poski.Posix.Timer.Laws.{expiry_lem}

-- What the calls need of the system: it accepts each setting of timer `id`, its clock can be read, and a timer that
-- expires, and does not repeat, is not armed any more.
pub record Accepts (A : TimerApi) (id : ℕ) : Type 0 where
  pub settings : (its : Itimerspec) (s : A.State) → (A.timer_settime id its s).0 ≡ pos 0
  pub clock : (s : A.State) → (now : ℕ) × (pos_time_get (A.monotonic s) ≡ done now)
  pub expires : A.State → A.State
  pub expires_lem : (s : A.State) → A.armed id (expires s) ≡ false

module _ (A : TimerApi) (id : ℕ) (K : Accepts A id) where
  open A use {State, armed, timer_settime, settime_lem}
  open K use {settings, clock, expires, expires_lem}

  abbrev pub Object : Type 0
  Object = Timer × State

  abbrev pub start : ℕ → Object → Outcome Object
  start n o = pos_timer_start A o.0 n o.1 >>= λ p. done (p.1, p.2)

  abbrev pub stop : Object → Outcome Object
  stop o = let (e, t, s) = pos_timer_stop A o.0 o.1 in done (t, s)

  abbrev pub arg_set : ℕ → Object → Object
  arg_set arg o = (pos_timer_arg_set o.0 arg, o.1)

  abbrev pub expire : Object → Outcome (Callback × Object)
  expire o = let (t, cb, arg) = pos_timer_cb o.0 in done ((cb, arg), (t, expires o.1))

  -- `tm_active` says whether the timer is armed.
  abbrev pub IsReady : Object → Type 0
  IsReady o = (o.0.tm_timer ≡ some id) × (armed id o.1 ≡ o.0.tm_active)

  abbrev pub callback : Object → Callback
  callback o = (o.0.tm_cb, o.0.tm_arg)

  set_armed :
      (its : Itimerspec) (s : State)
      → armed id (timer_settime id its s).1 ≡ (if is_zero its.value then false else true)
  set_armed its s = settime_lem id its s ∙ rw (settings its s) refl

  pub start_lem :
      (n : ℕ) (o : Object)
      → 0 < n
      → IsReady o
      → (o' : Object) × (start n o ≡ done o')
        × IsReady o'
        × (o'.0.tm_active ≡ true)
        × (callback o' ≡ callback o)
  unfolding pos_timer_start settime
  start_lem n o h (e, r) =
      let k = if n == 0 then 1 else n in
      let (now, c) = clock o.1 in
      let (_, _, nonzero, _) = expiry_lem A k in
      let p : ◌<◌ 0 k = ground arith in
      (
        (
          record o.0 { tm_ticks = u32 (now + k); tm_active = true },
          (timer_settime id (expiry A k) o.1).1,
        ),
        rw (e, c) refl,
        (e, set_armed (expiry A k) o.1 ∙ rw (nonzero p) refl),
        refl,
        refl,
      )

  pub stop_lem :
      (o : Object)
      → IsReady o
      → (o' : Object) × (stop o ≡ done o')
        × IsReady o'
        × (o'.0.tm_active ≡ false)
        × (callback o' ≡ callback o)
  unfolding pos_timer_stop
  stop_lem o (e, r) =
      let its : Itimerspec = record { interval = zero_time; value = zero_time } in
      (
        (record o.0 { tm_active = false }, (timer_settime id its o.1).1),
        rw (e, settings its o.1) refl,
        (e, set_armed its o.1),
        refl,
        refl,
      )

  pub arg_lem :
      (arg : ℕ) (o : Object)
      → IsReady o
      → IsReady (arg_set arg o)
        × ((arg_set arg o).0.tm_active ≡ o.0.tm_active)
        × (callback (arg_set arg o) ≡ ((callback o).0, arg))
  unfolding pos_timer_arg_set
  arg_lem arg o r = (r, refl, refl)

  pub expire_lem :
      (o : Object)
      → IsReady o
      → o.0.tm_active ≡ true
      → (o' : Object) × (expire o ≡ done (callback o, o'))
        × IsReady o'
        × (o'.0.tm_active ≡ false)
        × (callback o' ≡ callback o)
  unfolding pos_timer_cb
  expire_lem o (e, r) b =
      ((record o.0 { tm_active = false }, expires o.1), rw e refl, (e, expires_lem o.1), refl, refl)

  abbrev pub posix_one_shot : OneShot Object start stop arg_set expire
  posix_one_shot = record {
    IsReady = IsReady;
    active = λ o. o.0.tm_active;
    callback = callback;
    start_lem = start_lem;
    stop_lem = stop_lem;
    arg_lem = arg_lem;
    expire_lem = expire_lem;
  }
