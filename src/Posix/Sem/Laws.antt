-- ===== src/Posix/Sem/Laws.antt =====
-- targets/posix/os_sem.c against the interface Osal.Semaphore, and its deadlines.
use poski.Base.{
  List, ℕ, suc, ◌+◌, ◌*◌, ◌%◌, ◌≤◌, ◌≡◌, ◌≢◌, refl, sym, ap, ◌∙◌, inl, inr, Bool-cases, ℤ, pos,
  ◌==◌, ◌==ℤ◌, ==ℤ→ne, ne→==ℤ, ne→==, subst, if◌then◌else◌, Outcome, done, assert_failed, undefined,
  blocked, ◌>>=◌, Ensures,
}
use poski.Osal.ErrorCode.{einval}
use poski.Osal.Semaphore.{Semaphore, Takes, Gives, Op, Balances, run, run-Balances}
use poski.Posix.Utils.{map_posix_to_osal_error, is_ok-map_posix}
use poski.Posix.Time.{time_forever, deadline, with_deadline-Ensures}
use poski.Posix.Sem.{SemApi, timed_wait, pos_sem_give, pos_sem_take}

module _ (A : SemApi) where
  open A use {
    State, tokens, errno, sem_wait, sem_timedwait, clock_gettime, post_lem, wait_lem, timedwait_lem,
    timedwait_invalid, clock_lem,
  }

  -- A give adds a token exactly if it ends with POS_OK.
  pub give-Gives : (s : State) → Ensures (Gives tokens (tokens s)) (pos_sem_give A s)
  unfolding pos_sem_give
  give-Gives s =
      post_lem s ∙ ap (λ b. if b then suc (tokens s) else tokens s) (sym (is_ok-map_posix _))

  plain_wait-Takes :
      (n : ℕ) (m : Outcome (ℤ × State))
      → Ensures {A = ℤ × State}
          (λ p. n ≡ (if p.0 ==ℤ pos 0 then suc (tokens p.1) else tokens p.1))
          m
      → Ensures (Takes tokens n) (m >>= λ p. done (map_posix_to_osal_error p.0, p.1))
  plain_wait-Takes n (done p) h =
      h ∙ ap (λ b. if b then suc (tokens p.1) else tokens p.1) (sym (is_ok-map_posix p.0))
  plain_wait-Takes n assert_failed h = tt
  plain_wait-Takes n undefined h = tt
  plain_wait-Takes n blocked h = tt

  timed_wait-Takes :
      (n : ℕ) (m : Outcome (ℤ × State))
      → Ensures {A = ℤ × State}
          (λ p.
            (n ≡ (if p.0 ==ℤ pos 0 then suc (tokens p.1) else tokens p.1))
            × ((p.0 ≢ pos 0) → errno p.1 ≢ pos 0))
          m
      → Ensures (Takes tokens n) (
          m >>= λ p.
          done (map_posix_to_osal_error (if p.0 ==ℤ pos 0 then pos 0 else errno p.1), p.1))
  timed_wait-Takes n (done p) (h, failed) = elim (Bool-cases (p.0 ==ℤ pos 0)) [
    | inl e ↦ rw (e, is_ok-map_posix (pos 0)) (rw e at h)
    | inr e ↦
        rw (e, is_ok-map_posix (errno p.1))
          (rw (ne→==ℤ (errno p.1) (pos 0) (failed (==ℤ→ne p.0 (pos 0) e))) (rw e at h))
  ]
  timed_wait-Takes n assert_failed h = tt
  timed_wait-Takes n undefined h = tt
  timed_wait-Takes n blocked h = tt

  -- A take takes a token exactly if it ends with POS_OK.
  pub take-Takes :
      (timeout : ℕ) (s : State) → Ensures (Takes tokens (tokens s)) (pos_sem_take A timeout s)
  unfolding pos_sem_take
  take-Takes timeout s = elim (Bool-cases (timeout == time_forever)) [
    | inl e ↦ rw e (plain_wait-Takes (tokens s) (sem_wait s) (wait_lem s))
    | inr e ↦ rw e (
        with_deadline-Ensures (Takes tokens (tokens s)) (clock_gettime s) timeout (timed_wait A)
          (λ err not_ok. rw not_ok (sym (clock_lem s)))
          (λ t.
            subst (λ n. Ensures (Takes tokens n) (timed_wait A t (clock_gettime s).2)) (clock_lem s)
              (timed_wait-Takes _ _ (timedwait_lem t (clock_gettime s).2))))
  ]

  -- A call with a timeout that finds no token and whose deadline needs a carry from the nanoseconds
  -- to the seconds fails at once with POS_EINVAL, instead of waiting.
  pub take-einval :
      (timeout : ℕ) (s : State)
      → timeout ≢ time_forever
      → tokens s ≡ 0
      → (clock_gettime s).0 ≡ pos 0
      → 1_000_000_000 ≤ (clock_gettime s).1.nsec + timeout % 1000 * 1_000_000
      → (s' : State) × (pos_sem_take A timeout s ≡ done (einval, s'))
  unfolding pos_sem_take map_posix_to_osal_error deadline
  take-einval timeout s tmo none_left clock_ok carry =
      let (s', w, e) =
        timedwait_invalid (deadline (clock_gettime s).1 timeout) (clock_gettime s).2
          (clock_lem s ∙ none_left) carry in
      (s', rw (ne→== timeout time_forever tmo, clock_ok, w, e) refl)

  abbrev pub posix_semaphore : Semaphore
  posix_semaphore = record {
    State = State;
    tokens = tokens;
    take = pos_sem_take A;
    give = pos_sem_give A;
    take_lem = take-Takes;
    give_lem = give-Gives;
  }

  -- In any sequence of takes and gives on a POSIX semaphore that runs to its end, the tokens left and
  -- the takes that returned POS_OK are together the tokens at the start and the gives that did.
  pub run_posix-Balances :
      (ops : List Op) (s : State)
      → Ensures (Balances posix_semaphore (tokens s)) (run posix_semaphore ops s)
  run_posix-Balances ops s = run-Balances posix_semaphore ops s
