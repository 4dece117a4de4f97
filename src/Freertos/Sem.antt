-- ===== src/Freertos/Sem.antt =====
-- targets/freertos/os_sem.c, and the count of a semaphore of os_port.h.
pub mod Laws
use poski.Base.{
  ℕ, suc, ◌≡◌, ◌<◌, Bool, true, false, Option, none, some, u16, ◌==◌, if◌then◌else◌, Outcome, done,
  assert_failed, ◌>>=◌, ◌>>◌, assert, Ensures,
}
use poski.Osal.ErrorCode.{PosError, ok, invalid_param, timeout, Call}

-- What a call on a semaphore did that has `n` tokens of at most `max` before, and after it those
-- given: a take that passes takes a token, a give passes exactly if there is room for one.
abbrev pub Taken : ℕ → Bool → ℕ → Type 0
Taken n pass n' = n ≡ (if pass then suc n' else n')

pub record Given (n max : ℕ) (pass : Bool) (n' max' : ℕ) : Type 0 where
  pub added : n' ≡ (if pass then suc n else n)
  pub same_max : max' ≡ max
  pub room : n < max → pass ≡ true
  pub full : n ≡ max → pass ≡ false

-- semphr.h, on the state of the kernel; a semaphore is its handle. The calls for interrupt routines
-- also say whether a task was woken.
pub record SemApi : Type 1 where
  pub State : Type 0
  pub in_isr : State → Bool
  pub tokens : ℕ → State → ℕ
  pub maximum : ℕ → State → ℕ
  pub create_counting : ℕ → ℕ → State → Option ℕ × State
  pub take : ℕ → ℕ → State → Outcome (Bool × State)
  pub take_from_isr : ℕ → State → Bool × Bool × State
  pub give : ℕ → State → Bool × State
  pub give_from_isr : ℕ → State → Bool × Bool × State
  pub yield_from_isr : Bool → State → State
  pub create_lem :
      (max n h : ℕ) (s : State)
      → (create_counting max n s).0 ≡ some h
      → (tokens h (create_counting max n s).1 ≡ n) × (maximum h (create_counting max n s).1 ≡ max)
  pub take_lem :
      (h tmo : ℕ) (s : State)
      → Ensures {A = Bool × State} (λ p. Taken (tokens h s) p.0 (tokens h p.1)) (take h tmo s)
  pub take_from_isr_lem :
      (h : ℕ) (s : State)
      → Taken (tokens h s) (take_from_isr h s).0 (tokens h (take_from_isr h s).2)
  pub give_lem :
      (h : ℕ) (s : State)
      → Given
          (tokens h s)
          (maximum h s)
          (give h s).0
          (tokens h (give h s).1)
          (maximum h (give h s).1)
  pub give_from_isr_lem :
      (h : ℕ) (s : State)
      → Given
          (tokens h s)
          (maximum h s)
          (give_from_isr h s).0
          (tokens h (give_from_isr h s).2)
          (maximum h (give_from_isr h s).2)
  pub yield_lem :
      (woken : Bool) (h : ℕ) (s : State)
      → (tokens h (yield_from_isr woken s) ≡ tokens h s)
        × (maximum h (yield_from_isr woken s) ≡ maximum h s)

-- `struct pos_sem`
pub record Sem : Type 0 where
  pub handle : Option ℕ

-- `assert(sem->handle)`, and the handle.
abbrev pub handle_of : Option ℕ → Outcome ℕ
handle_of none = assert_failed
handle_of (some h) = done h

module _ (A : SemApi) where
  open A use {
    State, in_isr, tokens, create_counting, take, take_from_isr, give, give_from_isr,
    yield_from_isr,
  }

  -- The first argument is the pointer, `none` for null.
  unfoldable pub pos_sem_init : Option Sem → ℕ → State → Outcome (PosError × Option Sem × State)
  pos_sem_init none n s = done (invalid_param, none, s)
  pos_sem_init (some sem) n s =
      let (handle, s') = create_counting 128 n s in
      handle_of handle >>= λ h. done (ok, some (record { handle = some h }), s')

  unfoldable pub pos_sem_take : Option Sem → ℕ → Call State
  pos_sem_take none tmo s = done (invalid_param, s)
  pos_sem_take (some sem) tmo s = handle_of sem.handle >>= λ h.
      (if in_isr s
        then (assert (tmo == 0)
            >> let (ret, woken, s') = take_from_isr h s in done (ret, yield_from_isr woken s'))
        else take h tmo s)
      >>= λ p. done (if p.0 then ok else timeout, p.1)

  unfoldable pub pos_sem_give : Option Sem → Call State
  pos_sem_give none s = done (invalid_param, s)
  pos_sem_give (some sem) s = handle_of sem.handle >>= λ h.
      let (ret, s') =
        if in_isr s
        then (let (ret, woken, s') = give_from_isr h s in (ret, yield_from_isr woken s'))
        else give h s in
      assert ret >> done (ok, s')

  unfoldable pub pos_sem_get_count : Option Sem → State → Outcome ℕ
  pos_sem_get_count none s = assert_failed
  pos_sem_get_count (some sem) s = handle_of sem.handle >>= λ h. done (u16 (tokens h s))
