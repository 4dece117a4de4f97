-- ===== src/Wrapper/OsSemaphore.antt =====
-- include/poski/OsSemaphore.h: a semaphore with a count of the tokens taken through it, and the loop of
-- the destructor. Each method is one step of the model.
pub mod Scope
pub mod Threads
use poski.Base.{
  ℕ, zero, suc, ◌+◌, Bool, true, false, ◌==◌, ℤ, pos, negsuc, if◌then◌else◌, Option, none, some,
  Outcome, done, assert, ◌>>=◌, ◌>>◌,
}
use poski.Osal.ErrorCode.{PosError, is_ok}
use poski.Osal.Semaphore.{Semaphore}

-- `++` and `--` of an atomic `int32_t`, which wrap around.
abbrev pub inc32 : ℤ → ℤ
inc32 (pos n) = if n == 2147483647 then negsuc 2147483647 else pos (n + 1)
inc32 (negsuc zero) = pos 0
inc32 (negsuc (suc n)) = negsuc n

abbrev pub dec32 : ℤ → ℤ
dec32 (pos zero) = negsuc 0
dec32 (pos (suc n)) = pos n
dec32 (negsuc n) = if n == 2147483647 then pos 2147483647 else negsuc (n + 1)

abbrev pub is_positive : ℤ → Bool
is_positive (pos zero) = false
is_positive (pos (suc n)) = true
is_positive (negsuc n) = false

module _ (M : Semaphore) where
  open M use {State, take, give}

  pub record OsSemaphore : Type 0 where
    pub sem : State
    pub take_depth : ℤ

  -- The constructor after `pos_sem_init`, which gave `err` and the state `s`.
  unfoldable pub init : PosError → Bool → ℕ → State → Outcome OsSemaphore
  init err take_on_construction tmo s =
      assert (is_ok err)
      >> (if take_on_construction
          then (take tmo s >>= λ p.
              assert (is_ok p.0) >> done (record { sem = p.1; take_depth = pos 1 }))
          else done (record { sem = s; take_depth = pos 0 }))

  -- The loop of the destructor: `none` if it has not ended by so many tests of its condition.
  unfoldable pub destroy : ℕ → OsSemaphore → Outcome (Option OsSemaphore)
  destroy zero m = done none
  destroy (suc fuel) m =
      if is_positive m.take_depth
      then (give m.sem >>= λ p.
          assert (is_ok p.0)
          >> destroy fuel (record { sem = p.1; take_depth = dec32 m.take_depth }))
      else done (some m)

  unfoldable pub take_it : ℕ → OsSemaphore → Outcome (PosError × OsSemaphore)
  take_it tmo m = take tmo m.sem >>= λ p. done (
    p.0,
    record { sem = p.1; take_depth = if is_ok p.0 then inc32 m.take_depth else m.take_depth },
  )

  unfoldable pub give_it : OsSemaphore → Outcome (PosError × OsSemaphore)
  give_it m = give m.sem >>= λ p. done (
    p.0,
    record { sem = p.1; take_depth = if is_ok p.0 then dec32 m.take_depth else m.take_depth },
  )
