-- ===== src/Zephyr/Timer/Contract.antt =====
-- The timers of targets/zephyr/os_timer.c against the contract of include/poski/osal/os_timer.h.
use poski.Base.{
  ℕ, ◌<◌, ◌≡◌, refl, Bool, true, false, Option, none, some, ltb, arith, Outcome, done, undefined,
}
use poski.Osal.Timer.{Callback, OneShot}
use poski.Zephyr.Utils.{ticks}
use poski.Zephyr.Timer.{
  Timer, TimerApi, zephyr_timer_wrapper, chip_os_timer_start, chip_os_timer_stop,
  chip_os_timer_is_active, chip_os_timer_arg_set,
}

ltb-pos : (n : ℕ) → 0 < n → ltb 0 n ≡ true
ltb-pos n h = ground arith

ltb-zero : (n : ℕ) → n ≡ 0 → ltb 0 n ≡ false
ltb-zero n h = ground arith

module _ (A : TimerApi) where
  open A use {State, remaining, k_timer_start, k_timer_stop, expires}

  abbrev pub Object : Type 0
  Object = Timer × State

  abbrev pub start : ℕ → Object → Outcome Object
  start n o = done (o.0, (chip_os_timer_start A n o.1).1)

  abbrev pub stop : Object → Outcome Object
  stop o = done (o.0, (chip_os_timer_stop A o.1).1)

  abbrev pub arg_set : ℕ → Object → Object
  arg_set arg o = (chip_os_timer_arg_set o.0 arg, o.1)

  -- The contract is one for timers with a callback.
  abbrev pub calls : Option Callback → Object → Outcome (Callback × Object)
  calls none o = undefined
  calls (some c) o = done (c, o)

  abbrev pub expire : Object → Outcome (Callback × Object)
  expire o = calls (zephyr_timer_wrapper o.0) (o.0, expires o.1)

  abbrev pub function : Option ℕ → ℕ
  function none = 0
  function (some f) = f

  abbrev pub IsReady : Object → Type 0
  IsReady o = (f : ℕ) × (o.0.cb ≡ some f)

  abbrev pub callback : Object → Callback
  callback o = (function o.0.cb, o.0.arg)

  abbrev pub active : Object → Bool
  active o = chip_os_timer_is_active A o.1

  pub start_lem :
      (n : ℕ) (o : Object)
      → 0 < n
      → IsReady o
      → (o' : Object) × (start n o ≡ done o')
        × IsReady o'
        × (active o' ≡ true)
        × (callback o' ≡ callback o)
  unfolding chip_os_timer_start chip_os_timer_is_active
  start_lem n o h r = (
    (o.0, k_timer_start (ticks n) o.1),
    refl,
    r,
    ltb-pos (remaining (k_timer_start (ticks n) o.1)) (A.start_lem (ticks n) o.1 h),
    refl,
  )

  pub stop_lem :
      (o : Object)
      → IsReady o
      → (o' : Object) × (stop o ≡ done o')
        × IsReady o'
        × (active o' ≡ false)
        × (callback o' ≡ callback o)
  unfolding chip_os_timer_stop chip_os_timer_is_active
  stop_lem o r = ((o.0, k_timer_stop o.1), refl, r, ltb-zero _ (A.stop_lem o.1), refl)

  pub arg_lem :
      (arg : ℕ) (o : Object)
      → IsReady o
      → IsReady (arg_set arg o)
        × (active (arg_set arg o) ≡ active o)
        × (callback (arg_set arg o) ≡ ((callback o).0, arg))
  unfolding chip_os_timer_arg_set
  arg_lem arg o r = (r, refl, refl)

  pub expire_lem :
      (o : Object)
      → IsReady o
      → active o ≡ true
      → (o' : Object) × (expire o ≡ done (callback o, o'))
        × IsReady o'
        × (active o' ≡ false)
        × (callback o' ≡ callback o)
  unfolding zephyr_timer_wrapper chip_os_timer_is_active
  expire_lem o (f, e) b =
      ((o.0, expires o.1), rw e refl, (f, e), ltb-zero _ (A.expires_lem o.1), refl)

  abbrev pub zephyr_one_shot : OneShot Object start stop arg_set expire
  zephyr_one_shot = record {
    IsReady = IsReady;
    active = active;
    callback = callback;
    start_lem = start_lem;
    stop_lem = stop_lem;
    arg_lem = arg_lem;
    expire_lem = expire_lem;
  }
