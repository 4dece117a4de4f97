-- ===== src/Osal/Semaphore.antt =====
-- include/poski/osal/os_sem.h: what a counting semaphore promises, and what follows for any
-- sequence of calls. Each call is one atomic step; one that has to wait is `blocked`.
use poski.Base.{
  ℕ, suc, ◌+◌, ◌≡◌, refl, List, [], ◌∷◌, arith, Outcome, done, assert_failed, undefined, blocked,
  ◌>>=◌, Ensures, if◌then◌else◌,
}
use poski.Osal.ErrorCode.{PosError, is_ok, Call}

-- A call that ends with `ok` took a token, or gave one; any other result leaves them alone.
abbrev pub Takes : {S : Type 0} → (S → ℕ) → ℕ → PosError × S → Type 0
Takes tokens n p = n ≡ (if is_ok p.0 then suc (tokens p.1) else tokens p.1)

abbrev pub Gives : {S : Type 0} → (S → ℕ) → ℕ → PosError × S → Type 0
Gives tokens n p = tokens p.1 ≡ (if is_ok p.0 then suc n else n)

pub record Semaphore : Type 1 where
  pub State : Type 0
  pub tokens : State → ℕ
  pub take : ℕ → Call State
  pub give : Call State
  pub take_lem : (timeout : ℕ) (s : State) → Ensures (Takes tokens (tokens s)) (take timeout s)
  pub give_lem : (s : State) → Ensures (Gives tokens (tokens s)) (give s)

pub data Op : Type 0 where
  takes : (timeout : ℕ) → Op
  gives : Op

-- How many takes, and gives, of a run ended with `ok`.
abbrev pub taken : List (Op × PosError) → ℕ
taken [] = 0
taken ((takes _, e) ∷ r) = if is_ok e then suc (taken r) else taken r
taken ((gives, e) ∷ r) = taken r

abbrev pub given : List (Op × PosError) → ℕ
given [] = 0
given ((takes _, e) ∷ r) = given r
given ((gives, e) ∷ r) = if is_ok e then suc (given r) else given r

module _ (M : Semaphore) where
  open M use {State, tokens, take, give, take_lem, give_lem}

  unfoldable pub step : Op → Call State
  step (takes timeout) s = take timeout s
  step gives s = give s

  -- The results of a sequence of calls, and the state behind it.
  unfoldable pub run : List Op → State → Outcome (List (Op × PosError) × State)
  unfolding step
  run [] s = done ([], s)
  run (op ∷ ops) s = step op s >>= λ p. run ops p.1 >>= λ q. done ((op, p.0) ∷ q.0, q.1)

  abbrev pub Balances : ℕ → List (Op × PosError) × State → Type 0
  Balances n q = tokens q.1 + taken q.0 ≡ n + given q.0

  Balances-step :
      (op : Op) (n : ℕ) (p : PosError × State) (q : List (Op × PosError) × State)
      → Ensures {A = PosError × State}
          (λ x. tokens x.1 + taken ((op, x.0) ∷ []) ≡ n + given ((op, x.0) ∷ []))
          (done p)
      → Balances (tokens p.1) q
      → Balances n ((op, p.0) ∷ q.0, q.1)
  Balances-step (takes timeout) n p q h b = ground arith
  Balances-step gives n p q h b = ground arith

  step-Balances :
      (op : Op) (s : State)
      → Ensures {A = PosError × State}
          (λ x. tokens x.1 + taken ((op, x.0) ∷ []) ≡ tokens s + given ((op, x.0) ∷ []))
          (step op s)
  unfolding step
  step-Balances (takes timeout) s = after (take timeout s) (take_lem timeout s)
    where
      after :
          (m : Outcome (PosError × State))
          → Ensures (Takes tokens (tokens s)) m
          → Ensures {A = PosError × State}
              (λ x. tokens x.1 + taken ((takes timeout, x.0) ∷ []) ≡ tokens s + 0)
              m
      after (done p) h = ground arith
      after assert_failed h = tt
      after undefined h = tt
      after blocked h = tt
  step-Balances gives s = after (give s) (give_lem s)
    where
      after :
          (m : Outcome (PosError × State))
          → Ensures (Gives tokens (tokens s)) m
          → Ensures {A = PosError × State}
              (λ x. tokens x.1 + 0 ≡ tokens s + given ((gives, x.0) ∷ []))
              m
      after (done p) h = ground arith
      after assert_failed h = tt
      after undefined h = tt
      after blocked h = tt

  -- Whatever the calls and their results, the tokens at the end and those taken are the tokens at
  -- the start and those given.
  pub run-Balances : (ops : List Op) (s : State) → Ensures (Balances (tokens s)) (run ops s)
  unfolding run
  run-Balances [] s = refl
  run-Balances (op ∷ ops) s = after (step op s) (step-Balances op s) (λ u. run-Balances ops u)
    where
      inner :
          (p : PosError × State)
          → tokens p.1 + taken ((op, p.0) ∷ []) ≡ tokens s + given ((op, p.0) ∷ [])
          → (m : Outcome (List (Op × PosError) × State)) → Ensures (Balances (tokens p.1)) m
          → Ensures (Balances (tokens s)) (m >>= λ q. done ((op, p.0) ∷ q.0, q.1))
      inner p h (done q) b = Balances-step op (tokens s) p q h b
      inner p h assert_failed b = tt
      inner p h undefined b = tt
      inner p h blocked b = tt

      after :
          (m : Outcome (PosError × State))
          → Ensures {A = PosError × State}
              (λ x. tokens x.1 + taken ((op, x.0) ∷ []) ≡ tokens s + given ((op, x.0) ∷ []))
              m
          → ((u : State) → Ensures (Balances (tokens u)) (run ops u))
          → Ensures
              (Balances (tokens s))
              (m >>= λ p. run ops p.1 >>= λ q. done ((op, p.0) ∷ q.0, q.1))
      after (done p) h ih = inner p h (run ops p.1) (ih p.1)
      after assert_failed h ih = tt
      after undefined h ih = tt
      after blocked h ih = tt
