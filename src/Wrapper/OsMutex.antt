-- ===== src/Wrapper/OsMutex.antt =====
-- include/poski/OsMutex.h: a mutex with a count of its locks, and the loop of the destructor.
pub mod Laws
pub mod Scope
pub mod Threads
use poski.Base.{
  ℕ, zero, suc, ◌+◌, ◌-◌, ◌^◌, Bool, u32, ltb, if◌then◌else◌, Option, none, some, Outcome, done,
  assert, ◌>>=◌, ◌>>◌,
}
use poski.Osal.ErrorCode.{PosError, is_ok}
use poski.Osal.Mutex.{Mutex}

module _ (M : Mutex) where
  open M use {State, lock, unlock}

  -- The object, with the native mutex.
  pub record OsMutex : Type 0 where
    pub mutex : State
    pub lock_depth : ℕ  -- `uint32_t`

  -- The constructor after `pos_mutex_init`, which gave `err` and the state `s`.
  unfoldable pub init : PosError → Bool → ℕ → State → Outcome OsMutex
  init err lock_on_construction tmo s =
      assert (is_ok err)
      >> (if lock_on_construction
          then (lock tmo s >>= λ p.
              assert (is_ok p.0) >> done (record { mutex = p.1; lock_depth = 1 }))
          else done (record { mutex = s; lock_depth = 0 }))

  -- The loop of the destructor: `none` if it has not ended by so many tests of its condition.
  unfoldable pub destroy : ℕ → OsMutex → Outcome (Option OsMutex)
  destroy zero m = done none
  destroy (suc fuel) m =
      if ltb 0 m.lock_depth
      then (unlock m.mutex >>= λ p.
          assert (is_ok p.0)
          >> destroy fuel (record { mutex = p.1; lock_depth = m.lock_depth - 1 }))
      else done (some m)

  unfoldable pub lock_it : ℕ → OsMutex → Outcome (PosError × OsMutex)
  lock_it tmo m = lock tmo m.mutex >>= λ p. done (
    p.0,
    record { mutex = p.1; lock_depth = if is_ok p.0 then u32 (m.lock_depth + 1) else m.lock_depth },
  )

  -- The depth is decremented before the call, and incremented again if that fails.
  unfoldable pub unlock_it : OsMutex → Outcome (PosError × OsMutex)
  unlock_it m = assert (ltb 0 m.lock_depth) >> unlock m.mutex >>= λ p. done (
    p.0,
    record {
      mutex = p.1;
      lock_depth = if is_ok p.0 then m.lock_depth - 1 else u32 (m.lock_depth - 1 + 1);
    },
  )
