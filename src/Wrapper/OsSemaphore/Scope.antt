-- ===== src/Wrapper/OsSemaphore/Scope.antt =====
-- The life of an OsSemaphore, from its constructor to its destructor.
use poski.Base.{
  some, ℕ, zero, suc, ◌+◌, ◌<◌, ◌≤◌, ◌≡◌, refl, subst, Bool, true, false, List, [], ◌∷◌, length,
  arith, ne→==, ℤ, pos, negsuc, if◌then◌else◌, Outcome, done, assert_failed, undefined, blocked,
  ◌>>=◌, Ensures, Ensures-then, Ensures-assert,
}
use poski.Osal.ErrorCode.{PosError, ok, is_ok}
use poski.Osal.Semaphore.{Semaphore, Takes, Gives}
use poski.Wrapper.OsSemaphore.{inc32, dec32, OsSemaphore, init, destroy, take_it, give_it}

-- With a depth `d`, `tokens` are left of `start`, and the depth is at most `n` away from 0.
abbrev pub Depth : ℕ → ℕ → ℕ → ℤ → Type 0
Depth start n tokens (pos d) = (tokens + d ≡ start) × (d ≤ n)
Depth start n tokens (negsuc d) = (tokens ≡ start + suc d) × (suc d ≤ n)

Depth-weaken : (start n tokens : ℕ) (d : ℤ) → Depth start n tokens d → Depth start (suc n) tokens d
Depth-weaken start n tokens (pos d) (e, le) = (e, omega arith)
Depth-weaken start n tokens (negsuc d) (e, le) = (e, omega arith)

took :
    (start n tokens tokens' : ℕ) (d : ℤ) (b : Bool)
    → Depth start n tokens d
    → n < 2147483647
    → tokens ≡ (if b then suc tokens' else tokens')
    → Depth start (suc n) tokens' (if b then inc32 d else d)
took start n tokens tokens' (pos d) true (e, le) lt t =
    rw (ne→== d 2147483647 (λ h. absurd (omega arith))) (omega arith, omega arith)
took start n tokens tokens' (negsuc zero) true (e, le) lt t = (omega arith, omega arith)
took start n tokens tokens' (negsuc (suc d)) true (e, le) lt t = (omega arith, omega arith)
took start n tokens tokens' (pos d) false (e, le) lt t = (omega arith, omega arith)
took start n tokens tokens' (negsuc d) false (e, le) lt t = (omega arith, omega arith)

gave :
    (start n tokens tokens' : ℕ) (d : ℤ) (b : Bool)
    → Depth start n tokens d
    → n < 2147483647
    → tokens' ≡ (if b then suc tokens else tokens)
    → Depth start (suc n) tokens' (if b then dec32 d else d)
gave start n tokens tokens' (pos zero) true (e, le) lt t = (omega arith, omega arith)
gave start n tokens tokens' (pos (suc d)) true (e, le) lt t = (omega arith, omega arith)
gave start n tokens tokens' (negsuc d) true (e, le) lt t =
    rw (ne→== d 2147483647 (λ h. absurd (omega arith))) (omega arith, omega arith)
gave start n tokens tokens' (pos d) false (e, le) lt t = (omega arith, omega arith)
gave start n tokens tokens' (negsuc d) false (e, le) lt t = (omega arith, omega arith)

-- The calls of a user of the object, whatever they return.
pub data Use : Type 0 where
  takes : (tmo : ℕ) → Use
  gives : Use

module _ (M : Semaphore) where
  open M use {State, tokens, take, give, take_lem, give_lem}

  pub use_all : List Use → OsSemaphore M → Outcome (OsSemaphore M)
  use_all [] m = done m
  use_all (takes tmo ∷ uses) m = take_it M tmo m >>= λ p. use_all uses p.1
  use_all (gives ∷ uses) m = give_it M m >>= λ p. use_all uses p.1

  abbrev pub Counts : ℕ → ℕ → OsSemaphore M → Type 0
  Counts start n m = Depth start n (tokens m.sem) m.take_depth

  abbrev CountsAfter : ℕ → ℕ → PosError × OsSemaphore M → Type 0
  CountsAfter start n p = Counts start n p.1

  use_all-Counts :
      (start n : ℕ) (uses : List Use) (m : OsSemaphore M)
      → Counts start n m
      → n + length uses < 2147483648
      → Ensures (Counts start (n + length uses)) (use_all uses m)
  unfolding use_all take_it give_it
  use_all-Counts start n [] m c lt =
      subst (λ k. Depth start k (tokens m.sem) m.take_depth) (omega arith) c
  use_all-Counts start n (takes tmo ∷ uses) m c lt =
      Ensures-then (CountsAfter start (suc n)) (Counts start (n + suc (length uses)))
        (take_it M tmo m) _
        (Ensures-then (Takes tokens (tokens m.sem)) (CountsAfter start (suc n)) (take tmo m.sem) _
          (take_lem tmo m.sem)
          (λ p t.
            took start n (tokens m.sem) (tokens p.1) m.take_depth (is_ok p.0) c (omega arith) t))
        (λ p d.
          subst (λ k. Ensures (Counts start k) (use_all uses p.1)) (omega arith)
            (use_all-Counts start (suc n) uses p.1 d (omega arith)))
  use_all-Counts start n (gives ∷ uses) m c lt =
      Ensures-then (CountsAfter start (suc n)) (Counts start (n + suc (length uses))) (give_it M m)
        _
        (Ensures-then (Gives tokens (tokens m.sem)) (CountsAfter start (suc n)) (give m.sem) _
          (give_lem m.sem)
          (λ p t.
            gave start n (tokens m.sem) (tokens p.1) m.take_depth (is_ok p.0) c (omega arith) t))
        (λ p d.
          subst (λ k. Ensures (Counts start k) (use_all uses p.1)) (omega arith)
            (use_all-Counts start (suc n) uses p.1 d (omega arith)))

  pub init-Counts :
      (err : PosError) (b : Bool) (tmo : ℕ) (s : State)
      → Ensures (Counts (tokens s) 1) (init M err b tmo s)
  unfolding init
  init-Counts err true tmo s = Ensures-assert (Counts (tokens s) 1) (is_ok err) _ (λ _.
      Ensures-then (Takes tokens (tokens s)) (Counts (tokens s) 1) (take tmo s) _ (take_lem tmo s)
        (λ p t.
          Ensures-assert (Counts (tokens s) 1) (is_ok p.0) _
            (λ e. (omega (arith, rw e at t), omega arith))))
  init-Counts err false tmo s =
      Ensures-assert (Counts (tokens s) 1) (is_ok err) _ (λ _. (omega arith, omega arith))

  -- The loop of the destructor gives back `d` tokens and ends.
  pub destroy-gives :
      ((s : State) → (s' : State) × (give s ≡ done (ok, s')))
      → (d : ℕ) (m : OsSemaphore M) → m.take_depth ≡ pos d
      → (m' : OsSemaphore M) × (destroy M (suc d) m ≡ done (some m'))
        × (m'.take_depth ≡ pos 0)
        × (tokens m'.sem ≡ tokens m.sem + d)
  unfolding destroy
  destroy-gives works zero m e = (m, rw e refl, e, omega arith)
  destroy-gives works (suc d) m e =
      let (s', g) = works m.sem in
      let t : tokens s' ≡ suc (tokens m.sem) =
        subst (Ensures (Gives tokens (tokens m.sem))) g (give_lem m.sem) in
      let (m', r, z, k) = destroy-gives works d (record { sem = s'; take_depth = pos d }) refl in
      (m', rw (e, g) r, z, omega arith)

  -- The loop of the destructor of an object with a depth that is not negative ends, after as many
  -- rounds, with a depth of 0 and `start` tokens left.
  abbrev pub Restores : ℕ → OsSemaphore M → Type 0
  Restores start m =
      (d : ℕ)
      → m.take_depth ≡ pos d
      → (m' : OsSemaphore M) × (destroy M (suc d) m ≡ done (some m'))
        × (m'.take_depth ≡ pos 0)
        × (tokens m'.sem ≡ start)

  -- After the constructor of an OsSemaphore and fewer than 2^31 - 1 calls of Take and Give with any
  -- results, if no more tokens were given through it than taken, its destructor's loop ends after as
  -- many rounds as its depth, with a depth of 0 and the tokens that there were before, if a give succeeds.
  pub use_all-Restores :
      ((s : State) → (s' : State) × (give s ≡ done (ok, s')))
      → (err : PosError) (take_on_construction : Bool) (tmo : ℕ) (s : State) (uses : List Use)
      → length uses < 2147483647
      → Ensures (Restores (tokens s)) (init M err take_on_construction tmo s >>= use_all uses)
  use_all-Restores works err b tmo s uses lt =
      Ensures-then (Counts (tokens s) 1) (Restores (tokens s)) (init M err b tmo s) (use_all uses)
        (init-Counts err b tmo s)
        (λ m c. restored (use_all uses m) (use_all-Counts (tokens s) 1 uses m c (omega arith)))
    where
      one : (m : OsSemaphore M) → Counts (tokens s) (1 + length uses) m → Restores (tokens s) m
      one m c d e =
          let (m', r, z, t) = destroy-gives works d m e in
          let left = subst (Depth (tokens s) (1 + length uses) (tokens m.sem)) e c in
          (m', r, z, omega (arith, left.0))

      restored :
          (r : Outcome (OsSemaphore M))
          → Ensures (Counts (tokens s) (1 + length uses)) r
          → Ensures (Restores (tokens s)) r
      restored (done m) c = one m c
      restored assert_failed c = tt
      restored undefined c = tt
      restored blocked c = tt
