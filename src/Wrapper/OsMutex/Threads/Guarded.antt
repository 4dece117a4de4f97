-- ===== src/Wrapper/OsMutex/Threads/Guarded.antt =====
-- How the mutex of an OsMutex guards its `lock_depth_`.
use native.Mathlib.Decide.{ℕ_discrete}
use poski.Base.{
  ℕ, zero, suc, ◌+◌, ◌-◌, ◌<◌, ◌≤◌, ◌≡◌, ◌≢◌, refl, sym, ap, ◌∙◌, inl, inr, true, none, some,
  some_eq, none-ne-some, arith, ltb, u32, eq→==, ne→==,
}
use poski.RingPthread.Threads.{update}
use poski.Wrapper.OsMutex.Threads.{
  NativeMutex, Pc, outside, counting, releasing, reverting, pending, Shared, Step, lock_native,
  count_lock, unlock_begin, unlock_native, unlock_failed, revert, Reach, start, later,
}

module _ (M : NativeMutex) where
  open M use {State, owner, depth, Lock, Unlock, lock_lem, unlock_lem}

  -- The owner has counted all of its locks but for the one that it is in the middle of; no other thread
  -- is between two steps.
  pub record Inv (n : ℕ) (s : Shared M) : Type 0 where
    pub free : owner s.mutex ≡ none → s.lock_depth ≡ 0
    pub held :
        (t : ℕ)
        → owner s.mutex ≡ some t
        → (depth s.mutex ≡ s.lock_depth + pending (s.pc t))
          × (0 < depth s.mutex)
          × (depth s.mutex ≤ n)
    pub busy : (t : ℕ) → s.pc t ≢ outside → owner s.mutex ≡ some t

  abbrev Alone : Shared M → ℕ → Type 0
  Alone s t = (i : ℕ) → i ≢ t → ¬ (s.pc i ≢ outside)

  -- A step after which its thread owns the mutex.
  owns :
      (s : Shared M) (t n : ℕ) (m : State) (d : ℕ) (p : Pc)
      → Alone s t
      → owner m ≡ some t
      → depth m ≡ d + pending p
      → 0 < depth m
      → depth m ≤ n
      → Inv n (record { mutex = m; lock_depth = d; pc = update s.pc t p })
  owns s t n m d p alone o e lt le = record {
    free = λ h. absurd (none-ne-some t (sym h ∙ o));
    held = λ i h.
        let same : i ≡ t = some_eq i t (sym h ∙ o) in
        (e ∙ ap (λ q. d + pending q) (sym (here i same)), lt, le);
    busy = λ i h. elim (ℕ_discrete i t) [
      | yes q ↦ o ∙ ap some (sym q)
      | no ne ↦ absurd (alone i ne (λ z. h (other i ne ∙ z)))
    ];
  }
    where
      here : (i : ℕ) → i ≡ t → update s.pc t p i ≡ p
      here i q = rw (eq→== t i (sym q)) refl

      other : (i : ℕ) → i ≢ t → update s.pc t p i ≡ s.pc i
      other i ne = rw (ne→== t i (λ q. ne (sym q))) refl

  -- A step after which nobody does.
  frees :
      (s : Shared M) (t n : ℕ) (m : State)
      → Alone s t
      → owner m ≡ none
      → s.lock_depth ≡ 0
      → Inv n (record s { mutex = m; pc = update s.pc t outside })
  frees s t n m alone o z = record {
    free = λ h. z;
    held = λ i h. absurd (none-ne-some i (sym o ∙ h));
    busy = λ i h. elim (ℕ_discrete i t) [
      | yes q ↦ absurd (h (rw (eq→== t i (sym q)) refl))
      | no ne ↦ absurd (alone i ne (λ k. h (rw (ne→== t i (λ q. ne (sym q))) k)))
    ];
  }

  module _ {s : Shared M} {n : ℕ} (inv : Inv n s) (t : ℕ) where
    -- While a thread owns the mutex, or nobody does, the others are outside.
    owner-Alone : owner s.mutex ≡ some t → Alone s t
    owner-Alone o i ne b = ne (some_eq i t (sym (inv.busy i b) ∙ o))

    free-Alone : owner s.mutex ≡ none → Alone s t
    free-Alone o i ne b = none-ne-some i (sym o ∙ inv.busy i b)

    mine : {p : Pc} → s.pc t ≡ p → p ≢ outside → owner s.mutex ≡ some t
    mine e ne = inv.busy t (λ h. ne (sym e ∙ h))

    counts :
        {p : Pc}
        → s.pc t ≡ p
        → owner s.mutex ≡ some t
        → (depth s.mutex ≡ s.lock_depth + pending p) × (0 < depth s.mutex) × (depth s.mutex ≤ n)
    counts e o = let (c, l, b) = inv.held t o in (c ∙ ap (λ q. s.lock_depth + pending q) e, l, b)

    -- `lock_depth_++` of the owner.
    increments :
        {p : Pc}
        → s.pc t ≡ p
        → p ≢ outside
        → pending p ≡ 1
        → n < 4294967296
        → Inv (suc n) (record s { lock_depth = u32 (s.lock_depth + 1); pc = update s.pc t outside })
    increments e ne w lt =
        let o = mine e ne in
        let (c, l, b) = counts e o in
        owns s t (suc n) s.mutex _ outside (owner-Alone o) o (omega (arith, c, w, b, lt)) l
          (omega (arith, b))

  Step-Inv : {s u : Shared M} (n : ℕ) → Step M s u → n < 4294967296 → Inv n s → Inv (suc n) u
  Step-Inv {s} n (lock_native t m e l) lt inv = elim (lock_lem t s.mutex m l) [
    | inl (o, mine_now, one) ↦
        owns s t (suc n) m s.lock_depth counting (free-Alone inv t o) mine_now
          (omega (arith, one, inv.free o)) (omega (arith, one)) (omega (arith, one))
    | inr (o, mine_now, more) ↦
        let (c, l', b) = counts inv t e o in
        owns s t (suc n) m s.lock_depth counting (owner-Alone inv t o) mine_now
          (omega (arith, more, c)) (omega (arith, more)) (omega (arith, more, b))
  ]
  Step-Inv n (count_lock t e) lt inv = increments inv t e (λ h. cc) refl lt
  Step-Inv {s} n (unlock_begin t e o pos) lt inv =
      let (c, l, b) = counts inv t e o in
      owns s t (suc n) s.mutex (s.lock_depth - 1) releasing (owner-Alone inv t o) o
        (omega (arith, c, l)) l (omega (arith, b))
  Step-Inv {s} n (unlock_native t m e u) lt inv =
      let o = mine inv t e (λ h. cc) in
      let (c, l, b) = counts inv t e o in
      elim (unlock_lem t s.mutex m u o) [
        | inl (one, gone) ↦ frees s t (suc n) m (owner-Alone inv t o) gone (omega (arith, c, one))
        | inr (still, less, some_left) ↦
            owns s t (suc n) m s.lock_depth outside (owner-Alone inv t o) still
              (omega (arith, c, less)) some_left (omega (arith, b, less))
      ]
  Step-Inv {s} n (unlock_failed t e) lt inv =
      let o = mine inv t e (λ h. cc) in
      let (c, l, b) = counts inv t e o in
      owns s t (suc n) s.mutex s.lock_depth reverting (owner-Alone inv t o) o c l (omega (arith, b))
  Step-Inv n (revert t e) lt inv = increments inv t e (λ h. cc) refl lt

  Reach-Inv : {m : State} (n : ℕ) {s : Shared M} → Reach M m n s → n < 4294967296 → Inv n s
  Reach-Inv zero (start o) lt = record {
    free = λ h. refl;
    held = λ t h. absurd (none-ne-some t (sym o ∙ h));
    busy = λ t h. absurd (h refl);
  }
  Reach-Inv (suc n) (later r st) lt = Step-Inv n st (omega arith) (Reach-Inv n r (omega arith))

  -- In a state that threads reach in fewer than 2^32 steps on a new OsMutex that nobody holds, if each
  -- calls Unlock only while it holds the mutex: at most one thread is between two steps of Lock or
  -- Unlock, so that `lock_depth_` is never changed by two; a thread that holds the mutex and is in
  -- neither finds it equal to how often it does, so that the assertion of Unlock does not fail; and it
  -- is 0 while nobody holds the mutex.
  pub Reach-Guarded :
      {m : State} {n : ℕ} {s : Shared M}
      → Reach M m n s
      → n < 4294967296
      → ((i j : ℕ) → s.pc i ≢ outside → s.pc j ≢ outside → i ≡ j)
        × ((t : ℕ)
            → owner s.mutex ≡ some t
            → s.pc t ≡ outside
            → (s.lock_depth ≡ depth s.mutex) × (ltb 0 s.lock_depth ≡ true))
        × (owner s.mutex ≡ none → s.lock_depth ≡ 0)
  Reach-Guarded {n = n} {s = s} r lt = (
    λ i j bi bj. some_eq i j (sym (inv.busy i bi) ∙ inv.busy j bj),
    λ t o e.
        let (c, l, _) = counts inv t e o in
        let at : s.lock_depth ≡ depth s.mutex = omega (arith, c) in
        let some_depth : 0 < s.lock_depth = omega (arith, at, l) in
        (at, positive s.lock_depth some_depth),
    inv.free,
  )
    where
      inv : Inv n s
      inv = Reach-Inv n r lt

      positive : (d : ℕ) → 0 < d → ltb 0 d ≡ true
      positive d h = ground arith
