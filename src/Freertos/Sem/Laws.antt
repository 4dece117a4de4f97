-- ===== src/Freertos/Sem/Laws.antt =====
-- targets/freertos/os_sem.c against the interface Osal.Semaphore, and its limit of 128 tokens.
use poski.Base.{
  ℕ, zero, suc, ◌+◌, ◌≤◌, ◌<◌, ◌≡◌, refl, ◌∙◌, Bool, true, false, Bool-cases, inl, inr, Option,
  some, arith, ◌==◌, if◌then◌else◌, Outcome, done, assert_failed, undefined, blocked, ◌>>=◌, ◌>>◌,
  assert, Ensures,
}
use poski.Osal.ErrorCode.{ok, timeout, is_ok}
use poski.Osal.Semaphore.{Semaphore, Takes, Gives}
use poski.Freertos.Sem.{SemApi, Sem, Taken, Given, pos_sem_init, pos_sem_take, pos_sem_give}

module _ (A : SemApi) where
  open A use {
    State, in_isr, tokens, maximum, create_counting, take, take_from_isr, give, give_from_isr,
    yield_from_isr, create_lem, give_lem, give_from_isr_lem, yield_lem,
  }

  abbrev pub sem_at : ℕ → Option Sem
  sem_at h = some (record { handle = some h })

  -- What a give does in either context, before its assertion.
  abbrev raw_give : ℕ → State → Bool × State
  raw_give h s =
      if in_isr s
      then (let (ret, woken, s') = give_from_isr h s in (ret, yield_from_isr woken s'))
      else give h s

  raw_give-Given :
      (h : ℕ) (s : State)
      → Given
          (tokens h s)
          (maximum h s)
          (raw_give h s).0
          (tokens h (raw_give h s).1)
          (maximum h (raw_give h s).1)
  raw_give-Given h s = elim (Bool-cases (in_isr s)) [
    | inl e ↦ rw e (
        rw
          (
            (yield_lem (give_from_isr h s).1 h (give_from_isr h s).2).0,
            (yield_lem (give_from_isr h s).1 h (give_from_isr h s).2).1,
          )
          (give_from_isr_lem h s))
    | inr e ↦ rw e (give_lem h s)
  ]

  -- A semaphore that is not full takes a token; at its limit, the assertion fails.
  pub give-room :
      (h : ℕ) (s : State)
      → tokens h s < maximum h s
      → (s' : State) × (pos_sem_give A (sem_at h) s ≡ done (ok, s'))
        × (tokens h s' ≡ suc (tokens h s))
        × (maximum h s' ≡ maximum h s)
  unfolding pos_sem_give
  give-room h s room =
      let g = raw_give-Given h s in
      ((raw_give h s).1, rw (g.room room) refl, g.added ∙ rw (g.room room) refl, g.same_max)

  pub give-at_limit :
      (h : ℕ) (s : State) → tokens h s ≡ maximum h s → pos_sem_give A (sem_at h) s ≡ assert_failed
  unfolding pos_sem_give
  give-at_limit h s full = rw ((raw_give-Given h s).full full) refl

  -- So many gives, as long as they return POS_OK.
  pub give_all : ℕ → ℕ → State → Outcome State
  give_all h zero s = done s
  give_all h (suc n) s =
      pos_sem_give A (sem_at h) s >>= λ p. if is_ok p.0 then give_all h n p.1 else done p.1

  give_all-room :
      (h n : ℕ) (s : State)
      → tokens h s + n ≤ maximum h s
      → (s' : State) × (give_all h n s ≡ done s') × (tokens h s' ≡ tokens h s + n)
  unfolding give_all
  give_all-room h zero s fits = (s, refl, omega arith)
  give_all-room h (suc n) s fits =
      let (s1, e1, t1, m1) = give-room h s (omega arith) in
      let (s2, e2, t2) = give_all-room h n s1 (omega arith) in (s2, rw e1 e2, omega arith)

  give_all-beyond :
      (h n : ℕ) (s : State)
      → tokens h s + n ≡ suc (maximum h s)
      → tokens h s ≤ maximum h s
      → give_all h n s ≡ assert_failed
  unfolding give_all
  give_all-beyond h zero s e le = absurd (omega arith)
  give_all-beyond h (suc zero) s e le = rw (give-at_limit h s (omega arith)) refl
  give_all-beyond h (suc (suc n)) s e le =
      let (s1, e1, t1, m1) = give-room h s (omega arith) in
      rw e1 (give_all-beyond h (suc n) s1 (omega arith) (omega arith))

  -- A semaphore that is initialised with at most 128 tokens can be given until it has 128; one give
  -- more and the program aborts.
  pub give_all-init :
      (sem : Sem) (n h : ℕ) (s : State)
      → n ≤ 128
      → (create_counting 128 n s).0 ≡ some h
      → (s' : State) × (pos_sem_init A (some sem) n s ≡ done (ok, sem_at h, s'))
        × ((k : ℕ)
            → n + k ≤ 128
            → (s'' : State) × (give_all h k s' ≡ done s'') × (tokens h s'' ≡ n + k))
        × ((k : ℕ) → n + k ≡ 129 → give_all h k s' ≡ assert_failed)
  unfolding pos_sem_init
  give_all-init sem n h s le e =
      let s' = (create_counting 128 n s).1 in
      let (t, m) = create_lem 128 n h s e in
      (
        s',
        rw e refl,
        λ k fits. let (s'', g, t'') = give_all-room h k s' (omega arith) in (s'', g, omega arith),
        λ k over. give_all-beyond h k s' (omega arith) (omega arith),
      )

  -- A give adds a token exactly if it ends with POS_OK.
  pub give-Gives :
      (h : ℕ) (s : State) → Ensures (Gives (tokens h) (tokens h s)) (pos_sem_give A (sem_at h) s)
  unfolding pos_sem_give
  give-Gives h s = elim (Bool-cases (raw_give h s).0) [
    | inl e ↦ rw e ((raw_give-Given h s).added ∙ rw e refl)
    | inr e ↦ rw e tt
  ]

  mapped-Takes :
      (h n : ℕ) (m : Outcome (Bool × State))
      → Ensures {A = Bool × State} (λ p. Taken n p.0 (tokens h p.1)) m
      → Ensures (Takes (tokens h) n) (m >>= λ p. done (if p.0 then ok else timeout, p.1))
  mapped-Takes h n (done (true, s)) t = t
  mapped-Takes h n (done (false, s)) t = t
  mapped-Takes h n assert_failed t = tt
  mapped-Takes h n undefined t = tt
  mapped-Takes h n blocked t = tt

  -- A take takes a token exactly if it ends with POS_OK, in a task and in an interrupt routine.
  pub pos_sem_take-Takes :
      (h tmo : ℕ) (s : State)
      → Ensures (Takes (tokens h) (tokens h s)) (pos_sem_take A (sem_at h) tmo s)
  unfolding pos_sem_take
  pos_sem_take-Takes h tmo s = elim (Bool-cases (in_isr s)) [
    | inl e ↦ rw e (mapped-Takes h (tokens h s) (in_isr_take (tmo == 0)) (isr_lem (tmo == 0)))
    | inr e ↦ rw e (mapped-Takes h (tokens h s) (take h tmo s) (A.take_lem h tmo s))
  ]
    where
      in_isr_take : Bool → Outcome (Bool × State)
      in_isr_take b =
          assert b
          >> let (ret, woken, s') = take_from_isr h s in done (ret, yield_from_isr woken s')

      isr_lem :
          (b : Bool)
          → Ensures {A = Bool × State} (λ p. Taken (tokens h s) p.0 (tokens h p.1)) (in_isr_take b)
      isr_lem true =
          rw (yield_lem (take_from_isr h s).1 h (take_from_isr h s).2).0 (A.take_from_isr_lem h s)
      isr_lem false = tt

  abbrev pub freertos_semaphore : ℕ → Semaphore
  freertos_semaphore h = record {
    State = State;
    tokens = tokens h;
    take = pos_sem_take A (sem_at h);
    give = pos_sem_give A (sem_at h);
    take_lem = pos_sem_take-Takes h;
    give_lem = give-Gives h;
  }
