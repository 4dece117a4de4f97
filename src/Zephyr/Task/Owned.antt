-- ===== src/Zephyr/Task/Owned.antt =====
-- Which task has which of the ten stacks, and which stacks are marked as used.
use poski.Base.{
  ℕ, zero, suc, ◌+◌, ◌<◌, ◌≡◌, refl, sym, ap, ◌∙◌, Bool, true, false, Bool-cases, inl, inr, Option,
  none, some, List, [], ◌∷◌, ◌++◌, length-append, arith, length, length-set, get_or,
  get_or-set_self, get_or-set_ne, set, ◌==◌, ==→eq, ==→ne, eq→==, if◌then◌else◌,
}
use poski.Zephyr.Task.{Task, max_tasks}
use poski.Zephyr.Task.Slots.{count_used, count_used-set-true, count_used-set-false}

abbrev pub has : ℕ → Option ℕ → ℕ
has i none = 0
has i (some j) = if i == j then 1 else 0

-- How many of the tasks have stack `i`.
abbrev pub users : ℕ → List Task → ℕ
users i [] = 0
users i (t ∷ ts) = has i t.stack + users i ts

pub users-append : (i : ℕ) (xs ys : List Task) → users i (xs ++ ys) ≡ users i xs + users i ys
users-append i [] ys = omega arith
users-append i (t ∷ xs) ys = omega (arith, users-append i xs ys)

abbrev pub Stacked : Task → Type 0
Stacked t = (i : ℕ) × (t.stack ≡ some i)

abbrev pub AllStacked : List Task → Type 0
AllStacked [] = Unit
AllStacked (t ∷ ts) = Stacked t × AllStacked ts

pub AllStacked-middle :
    (xs : List Task) (t : Task) (ys : List Task)
    → AllStacked (xs ++ t ∷ ys)
    → Stacked t × AllStacked (xs ++ ys)
AllStacked-middle [] t ys h = h
AllStacked-middle (x ∷ xs) t ys (h, hs) =
    let (s, rest) = AllStacked-middle xs t ys hs in (s, (h, rest))

-- Each live task has a stack, each stack at most one live task, and it is marked exactly if it has.
pub record Owned (us : List Bool) (ts : List Task) : Type 0 where
  pub sized : length us ≡ max_tasks
  pub exclusive : (i : ℕ) → users i ts ≡ (if get_or us i false then 1 else 0)
  pub counted : length ts ≡ count_used us
  pub stacked : AllStacked ts

has-users : (i k : ℕ) (o : Option ℕ) → o ≡ some k → has i o ≡ (if i == k then 1 else 0)
has-users i k o e = rw e refl

pub Owned-add :
    {us : List Bool} {ts : List Task} (t : Task) (k : ℕ)
    → Owned us ts
    → t.stack ≡ some k
    → k < length us
    → get_or us k false ≡ false
    → Owned (set us k true) (t ∷ ts)
Owned-add {us} {ts} t k o e lt unused = record {
  sized = length-set us k true ∙ o.sized;
  exclusive = λ i. elim (Bool-cases (i == k)) [
    | inl q ↦
        let same : i ≡ k = ==→eq i k q in
        rw (e, q, o.exclusive i, same, unused, get_or-set_self us k true false lt) refl
    | inr q ↦
        rw (e, q, o.exclusive i, get_or-set_ne us k i true false (λ p. ==→ne i k q (sym p)))
          (omega arith)
  ];
  counted = ap suc o.counted ∙ sym (count_used-set-true us k lt unused);
  stacked = ((k, e), o.stacked);
}

used_by :
    {us : List Bool} {ts : List Task} (k : ℕ)
    → Owned us ts
    → 0 < users k ts
    → get_or us k false ≡ true
used_by {us} k o live = elim (Bool-cases (get_or us k false)) [
  | inl q ↦ q
  | inr q ↦ absurd (let h = rw q at (o.exclusive k) in omega arith)
]

in_bounds : (us : List Bool) (k : ℕ) → get_or us k false ≡ true → k < length us
in_bounds [] k e = absurd (cc)
in_bounds (u ∷ us) zero e = omega arith
in_bounds (u ∷ us) (suc k) e = omega (arith, in_bounds us k e)

pub Owned-remove :
    {us : List Bool} (xs : List Task) (t : Task) (ys : List Task) (k : ℕ)
    → Owned us (xs ++ t ∷ ys)
    → t.stack ≡ some k
    → Owned (set us k false) (xs ++ ys)
Owned-remove {us} xs t ys k o e = record {
  sized = length-set us k false ∙ o.sized;
  exclusive = λ i. elim (Bool-cases (i == k)) [
    | inl q ↦
        let same : i ≡ k = ==→eq i k q in
        rw (same, get_or-set_self us k false false (in_bounds us k used))
          (omega (arith, split k, rw used at (o.exclusive k), has_self))
    | inr q ↦
        rw (get_or-set_ne us k i false false (λ p. ==→ne i k q (sym p)))
          (omega (arith, split i, has_other i q, o.exclusive i))
  ];
  counted = omega (
    arith,
    o.counted,
    count_used-set-false us k used,
    length-append {0} xs (t ∷ ys),
    length-append {0} xs ys,
  );
  stacked = (AllStacked-middle xs t ys o.stacked).1;
}
  where
    split : (i : ℕ) → users i (xs ++ t ∷ ys) ≡ has i t.stack + users i (xs ++ ys)
    split i = omega (arith, users-append i xs (t ∷ ys), users-append i xs ys)

    has_self : has k t.stack ≡ 1
    has_self = has-users k k t.stack e ∙ rw (eq→== k k refl) refl

    has_other : (i : ℕ) → (i == k) ≡ false → has i t.stack ≡ 0
    has_other i q = has-users i k t.stack e ∙ ap (λ b. if b then 1 else 0) q

    used : get_or us k false ≡ true
    used = used_by k o (omega (arith, split k, has_self))
