-- ===== src/Osal/Timer.antt =====
-- include/poski/osal/os_timer.h: what a one-shot timer promises to a client that starts it, stops it,
-- changes its argument and waits for it, in any order.
use poski.Base.{
  ℕ, ◌<◌, ◌≡◌, refl, sym, Bool, true, false, Bool-cases, inl, inr, List, [], ◌∷◌, if◌then◌else◌,
  Outcome, done, ◌>>=◌,
}

-- A call of the user's callback: the function and its argument.
abbrev pub Callback : Type 0
Callback = ℕ × ℕ

-- The calls of one port on the state of a timer and of the kernel behind it, without their results.
-- `expire` is what the port does when the kernel finds that the time of a running timer has passed.
-- `IsReady` says that the timer is initialised, and the kernel accepts the calls.
pub record OneShot (S : Type 0) (start : ℕ → S → Outcome S) (stop : S → Outcome S)
    (arg_set : ℕ → S → S) (expire : S → Outcome (Callback × S)) : Type 1 where
  pub IsReady : S → Type 0
  pub active : S → Bool
  pub callback : S → Callback
  -- A start, for a positive number of ticks, makes the timer active, whether or not it was.
  pub start_lem :
      (ticks : ℕ) (s : S)
      → 0 < ticks
      → IsReady s
      → (s' : S) × (start ticks s ≡ done s')
        × IsReady s'
        × (active s' ≡ true)
        × (callback s' ≡ callback s)
  pub stop_lem :
      (s : S)
      → IsReady s
      → (s' : S) × (stop s ≡ done s')
        × IsReady s'
        × (active s' ≡ false)
        × (callback s' ≡ callback s)
  -- The argument may be changed while the timer runs.
  pub arg_lem :
      (arg : ℕ) (s : S)
      → IsReady s
      → IsReady (arg_set arg s)
        × (active (arg_set arg s) ≡ active s)
        × (callback (arg_set arg s) ≡ ((callback s).0, arg))
  -- When a running timer expires its callback is called once, and it is no longer active.
  pub expire_lem :
      (s : S)
      → IsReady s
      → active s ≡ true
      → (s' : S) × (expire s ≡ done (callback s, s'))
        × IsReady s'
        × (active s' ≡ false)
        × (callback s' ≡ callback s)

-- A client's calls, and the passing of enough time for any timer that runs.
pub data Op : Type 0 where
  starts : (ticks : ℕ) → 0 < ticks → Op
  stops : Op
  sets : (arg : ℕ) → Op
  passes : Op

-- The callbacks of a timer that is only its callback and whether it is active, and what is left of it.
abbrev pub expected : Callback → Bool → List Op → List Callback
expected c b [] = []
expected c b (starts ticks h ∷ ops) = expected c true ops
expected c b (stops ∷ ops) = expected c false ops
expected c b (sets arg ∷ ops) = expected (c.0, arg) b ops
expected c true (passes ∷ ops) = c ∷ expected c false ops
expected c false (passes ∷ ops) = expected c false ops

abbrev pub ends_active : Bool → List Op → Bool
ends_active b [] = b
ends_active b (starts ticks h ∷ ops) = ends_active true ops
ends_active b (stops ∷ ops) = ends_active false ops
ends_active b (sets arg ∷ ops) = ends_active b ops
ends_active b (passes ∷ ops) = ends_active false ops

module _ {S : Type 0} {start : ℕ → S → Outcome S} {stop : S → Outcome S} {arg_set : ℕ → S → S}
    {expire : S → Outcome (Callback × S)} (P : OneShot S start stop arg_set expire) where
  open P use {IsReady, active, callback, start_lem, stop_lem, arg_lem, expire_lem}

  -- The callbacks of a run of a port, oldest first, and the state behind it.
  unfoldable pub run : List Op → S → Outcome (List Callback × S)
  run [] s = done ([], s)
  run (starts ticks h ∷ ops) s = start ticks s >>= run ops
  run (stops ∷ ops) s = stop s >>= run ops
  run (sets arg ∷ ops) s = run ops (arg_set arg s)
  run (passes ∷ ops) s =
      if active s then (expire s >>= λ p. run ops p.1 >>= λ q. done (p.0 ∷ q.0, q.1)) else run ops s

  abbrev pub Answers : List Op → Callback → Bool → Outcome (List Callback × S) → Type 0
  Answers ops c b m =
      (s : S) × (m ≡ done (expected c b ops, s)) × IsReady s × (active s ≡ ends_active b ops)

  -- On a timer that is ready, any sequence of starts, stops, changes of the argument and waits returns,
  -- and calls what the abstract timer calls: after each wait for a running timer, and only then, the
  -- callback with the argument set last.
  pub run-expected :
      (ops : List Op) (s : S) → IsReady s → Answers ops (callback s) (active s) (run ops s)
  unfolding run
  run-expected [] s r = (s, refl, r, refl)
  run-expected (starts ticks h ∷ ops) s r =
      let (s1, e, r1, a, c) = start_lem ticks s h r in rw (e, sym a, sym c) (run-expected ops s1 r1)
  run-expected (stops ∷ ops) s r =
      let (s1, e, r1, a, c) = stop_lem s r in rw (e, sym a, sym c) (run-expected ops s1 r1)
  run-expected (sets arg ∷ ops) s r =
      let (r1, a, c) = arg_lem arg s r in rw (sym a, sym c) (run-expected ops (arg_set arg s) r1)
  run-expected (passes ∷ ops) s r = elim (Bool-cases (active s)) [
    | inl b ↦
        let (s1, e, r1, a, c) = expire_lem s r b in
        let (s2, e2, r2, a2) = rw (a, c) at (run-expected ops s1 r1) in
        rw (b, e, e2) (s2, refl, r2, a2)
    | inr b ↦ rw b (rw b at (run-expected ops s r))
  ]
