-- ===== src/Wrapper/OsSemaphore/Threads.antt =====
-- OsSemaphore used by several threads: `Take` and `Give` call the native semaphore first and then
-- change the count, so that the steps of other threads come in between.
pub mod Pending
use poski.Base.{
  some, ℕ, zero, suc, ◌+◌, ◌<◌, ◌≤◌, ◌≡◌, refl, sym, ap, ◌∙◌, subst, Bool, true, false, List, [],
  ◌∷◌, ◌++◌, replicate, arith, ne→==, ℤ, pos, negsuc, if◌then◌else◌, done, ◌>>=◌, Ensures,
}
use poski.Osal.ErrorCode.{PosError, ok, is_ok}
use poski.Osal.Semaphore.{Semaphore, Takes, Gives}
use poski.Wrapper.OsSemaphore.{inc32, dec32, OsSemaphore, init, destroy}
use poski.Wrapper.OsSemaphore.Threads.Pending.{
  Pc, idle, took, gave, is_took, is_gave, pending, pending-move, pending-idle, Balance,
  Balance-moves, Balance-inc, Balance-dec, Depth-Balance,
}
use poski.Wrapper.OsSemaphore.Scope.{Counts, init-Counts, destroy-gives}

module _ (M : Semaphore) where
  open M use {State, tokens, take, give, take_lem, give_lem}

  pub record Shared : Type 0 where
    pub object : OsSemaphore M
    pub threads : List Pc

  -- A call that waits in the native semaphore takes no step before it can.
  pub data Step (s : Shared) : Shared → Type 0 where
    take_step :
        (xs ys : List Pc) (tmo : ℕ) (e : PosError) (x : State)
        → s.threads ≡ xs ++ idle ∷ ys
        → take tmo s.object.sem ≡ done (e, x)
        → Step s (record {
          object = record s.object { sem = x };
          threads = xs ++ (if is_ok e then took else idle) ∷ ys;
        })
    count_take :
        (xs ys : List Pc)
        → s.threads ≡ xs ++ took ∷ ys
        → Step s (record {
          object = record s.object { take_depth = inc32 s.object.take_depth };
          threads = xs ++ idle ∷ ys;
        })
    give_step :
        (xs ys : List Pc) (e : PosError) (x : State)
        → s.threads ≡ xs ++ idle ∷ ys
        → give s.object.sem ≡ done (e, x)
        → Step s (record {
          object = record s.object { sem = x };
          threads = xs ++ (if is_ok e then gave else idle) ∷ ys;
        })
    count_give :
        (xs ys : List Pc)
        → s.threads ≡ xs ++ gave ∷ ys
        → Step s (record {
          object = record s.object { take_depth = dec32 s.object.take_depth };
          threads = xs ++ idle ∷ ys;
        })

  -- After `n` steps of `k` threads on the object.
  pub data Reach (m : OsSemaphore M) (k : ℕ) : ℕ → Shared → Type 0 where
    start : Reach m k 0 (record { object = m; threads = replicate k idle })
    later : {n : ℕ} {s u : Shared} → Reach m k n s → Step s u → Reach m k (suc n) u

  abbrev pub Balanced : ℕ → ℕ → Shared → Type 0
  Balanced first n s =
      Balance first n (tokens s.object.sem) (pending is_took s.threads) (pending is_gave s.threads)
        s.object.take_depth

  Step-Balanced :
      {s u : Shared} (first n : ℕ)
      → Step s u
      → n < 2147483647
      → Balanced first n s
      → Balanced first (suc n) u
  Step-Balanced {s} first n (take_step xs ys tmo e x h r) lt b =
      Balance-moves first n (tokens s.object.sem) (pending is_took s.threads)
        (pending is_gave s.threads) (tokens x) _ _ s.object.take_depth
        (moved (is_ok e)
          (subst (Ensures (Takes tokens (tokens s.object.sem))) r (take_lem tmo s.object.sem)))
        b
    where
      moved :
          (b : Bool)
          → tokens s.object.sem ≡ (if b then suc (tokens x) else tokens x)
          → tokens x
              + pending is_took (xs ++ (if b then took else idle) ∷ ys)
              + pending is_gave s.threads
            ≡ tokens s.object.sem
              + pending is_took s.threads
              + pending is_gave (xs ++ (if b then took else idle) ∷ ys)
      moved true t = omega (
        arith,
        t,
        pending-move is_took xs ys s.threads idle took h,
        pending-move is_gave xs ys s.threads idle took h,
      )
      moved false t = omega (
        arith,
        t,
        pending-move is_took xs ys s.threads idle idle h,
        pending-move is_gave xs ys s.threads idle idle h,
      )
  Step-Balanced {s} first n (count_take xs ys h) lt b =
      subst
        (λ g.
          Balance first (suc n) (tokens s.object.sem) (pending is_took (xs ++ idle ∷ ys)) g
            (inc32 s.object.take_depth))
        (omega (arith, pending-move is_gave xs ys s.threads took idle h))
        (Balance-inc first n (tokens s.object.sem) (pending is_took s.threads) _
          (pending is_gave s.threads) s.object.take_depth
          (omega (arith, pending-move is_took xs ys s.threads took idle h)) lt b)
  Step-Balanced {s} first n (give_step xs ys e x h r) lt b =
      Balance-moves first n (tokens s.object.sem) (pending is_took s.threads)
        (pending is_gave s.threads) (tokens x) _ _ s.object.take_depth
        (moved (is_ok e)
          (subst (Ensures (Gives tokens (tokens s.object.sem))) r (give_lem s.object.sem)))
        b
    where
      moved :
          (b : Bool)
          → tokens x ≡ (if b then suc (tokens s.object.sem) else tokens s.object.sem)
          → tokens x
              + pending is_took (xs ++ (if b then gave else idle) ∷ ys)
              + pending is_gave s.threads
            ≡ tokens s.object.sem
              + pending is_took s.threads
              + pending is_gave (xs ++ (if b then gave else idle) ∷ ys)
      moved true t = omega (
        arith,
        t,
        pending-move is_took xs ys s.threads idle gave h,
        pending-move is_gave xs ys s.threads idle gave h,
      )
      moved false t = omega (
        arith,
        t,
        pending-move is_took xs ys s.threads idle idle h,
        pending-move is_gave xs ys s.threads idle idle h,
      )
  Step-Balanced {s} first n (count_give xs ys h) lt b =
      subst
        (λ a.
          Balance first (suc n) (tokens s.object.sem) a (pending is_gave (xs ++ idle ∷ ys))
            (dec32 s.object.take_depth))
        (omega (arith, pending-move is_took xs ys s.threads gave idle h))
        (Balance-dec first n (tokens s.object.sem) (pending is_took s.threads)
          (pending is_gave s.threads) _ s.object.take_depth
          (omega (arith, pending-move is_gave xs ys s.threads gave idle h)) lt b)

  Reach-Balanced :
      {m : OsSemaphore M} (k first n : ℕ) {s : Shared}
      → Counts M first 1 m
      → Reach m k n s
      → n < 2147483646
      → Balanced first (suc n) s
  Reach-Balanced {m} k first zero c start _ =
      rw (pending-idle is_took k refl, pending-idle is_gave k refl)
        (Depth-Balance first 1 (tokens m.sem) m.take_depth c)
  Reach-Balanced k first (suc n) c (later r st) lt =
      Step-Balanced first (suc n) st (omega arith) (Reach-Balanced k first n c r (omega arith))

  -- After the constructor of an OsSemaphore and fewer than 2^31 - 2 steps of any number of threads that
  -- call Take and Give, in any interleaving and with any results, once no thread is in a call: if no
  -- more tokens were given through the object than taken, its destructor's loop ends after as many
  -- rounds as its depth, with a depth of 0 and the tokens that there were before, if a give succeeds.
  pub threads-Restores :
      ((x : State) → (x' : State) × (give x ≡ done (ok, x')))
      → (err : PosError) (take_on_construction : Bool) (tmo : ℕ) (x : State) (m : OsSemaphore M)
      → init M err take_on_construction tmo x ≡ done m
      → (k n : ℕ) (s : Shared) → Reach m k n s
      → n < 2147483646
      → s.threads ≡ replicate k idle
      → (d : ℕ) → s.object.take_depth ≡ pos d
      → (m' : OsSemaphore M) × (destroy M (suc d) s.object ≡ done (some m'))
        × (m'.take_depth ≡ pos 0)
        × (tokens m'.sem ≡ tokens x)
  threads-Restores works err b tmo x m i k n s r lt quiet d e =
      let c = subst (Ensures (Counts M (tokens x) 1)) i (init-Counts M err b tmo x) in
      let (m', gone, z, t) = destroy-gives M works d s.object e in
      let bal =
        subst
          (Balance (tokens x) (suc n) (tokens s.object.sem) (pending is_took s.threads)
            (pending is_gave s.threads))
          e (Reach-Balanced k (tokens x) n c r lt) in
      (
        m',
        gone,
        z,
        omega (
          arith,
          t,
          bal.0,
          ap (pending is_took) quiet,
          ap (pending is_gave) quiet,
          pending-idle is_took k refl,
          pending-idle is_gave k refl,
        ),
      )
