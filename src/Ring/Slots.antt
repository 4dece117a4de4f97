-- ===== src/Ring/Slots.antt =====
-- The buffer of OsRing seen as `count` slots of `size` bytes, and the items in a run of slots.
use native.Mathlib.Nat.{div-add-mod, mul-le-mul_left, mod-lt, add-mod}
use native.Mathlib.Decide.{dec_lt}
use poski.Base.{
  ℕ, zero, suc, ◌+◌, ◌*◌, ◌/◌, ◌%◌, ◌≤◌, ◌<◌, ◌≡◌, ◌≢◌, ◌⊎◌, inl, inr, refl, sym, ap, ap₂, ◌∙◌,
  List, [], ◌∷◌, ◌++◌, arith, length, load, store, load-store_self, load-store_other,
}

module _ (count size : ℕ) where
  -- The slot of a free-running index.
  abbrev pub slot : List ℕ → ℕ → List ℕ
  slot buffer index = load buffer (index % count * size) size

  -- The `n` items from the index `j` on, oldest first.
  abbrev pub items : List ℕ → ℕ → ℕ → List (List ℕ)
  items buffer j zero = []
  items buffer j (suc n) = slot buffer j ∷ items buffer (suc j) n

  pub length-items : (buffer : List ℕ) (j n : ℕ) → length (items buffer j n) ≡ n
  length-items buffer j zero = refl
  length-items buffer j (suc n) = ap suc (length-items buffer (suc j) n)

  -- An item more at the end of a run.
  pub items-snoc :
      (buffer : List ℕ) (j n : ℕ)
      → items buffer j (suc n) ≡ items buffer j n ++ slot buffer (j + n) ∷ []
  items-snoc buffer j zero = ap (λ k. slot buffer k ∷ []) (omega arith)
  items-snoc buffer j (suc n) = ap (◌∷◌ (slot buffer j)) (
      items-snoc buffer (suc j) n
      ∙ ap (λ k. items buffer (suc j) n ++ slot buffer k ∷ []) (omega arith))

  -- Indices that agree modulo `count` start the same run.
  pub items-congr :
      (buffer : List ℕ) (j k n : ℕ) → j % count ≡ k % count → items buffer j n ≡ items buffer k n
  items-congr buffer j k zero e = refl
  items-congr buffer j k (suc n) e =
      ap₂ ◌∷◌ (ap (λ i. load buffer (i * size) size) e)
        (items-congr buffer (suc j) (suc k) n (suc-congr e))
    where
      suc-congr : j % count ≡ k % count → suc j % count ≡ suc k % count
      suc-congr h =
          ap (λ t. t % count) {x = suc j} {y = j + 1} (omega arith)
          ∙ add-mod j 1 count
          ∙ ap (λ t. (t + 1 % count) % count) h
          ∙ sym (add-mod k 1 count)
          ∙ ap (λ t. t % count) {x = k + 1} {y = suc k} (omega arith)

  -- Two indices less than `count` apart have different slots.
  pub mod-ne : (j k : ℕ) → j < k → k < j + count → j % count ≢ k % count
  mod-ne j k lt near e = elim (dec_lt (j / count) (k / count)) [
    | yes p ↦ absurd (
        omega (
          arith,
          div-add-mod j count,
          div-add-mod k count,
          mul-le-mul_left {m = suc (j / count)} {n = k / count} count p,
        ))
    | no p ↦ absurd (
        omega (
          arith,
          div-add-mod j count,
          div-add-mod k count,
          mul-le-mul_left {m = k / count} {n = j / count} count (omega arith),
        ))
  ]

  -- Slots do not overlap.
  apart : (a b : ℕ) → a ≢ b → (a * size + size ≤ b * size) ⊎ (b * size + size ≤ a * size)
  apart a b ne = elim (dec_lt a b) [ yes p ↦ inl (grind arith) | no p ↦ inr (grind arith) ]

  -- A write to one slot leaves a run of others alone.
  items-store_other :
      (buffer item : List ℕ) (i j n : ℕ)
      → length item ≡ size
      → ((m : ℕ) → m < n → (j + m) % count ≢ i)
      → items (store buffer (i * size) item) j n ≡ items buffer j n
  items-store_other buffer item i j zero e ne = refl
  items-store_other buffer item i j (suc n) e ne = ap₂ ◌∷◌ here (
      items-store_other buffer item i (suc j) n e (λ m h q.
        ne (suc m) (omega arith)
          (ap (λ t. t % count) {x = j + suc m} {y = suc j + m} (omega arith) ∙ q)))
    where
      ne_here : j % count ≢ i
      ne_here q = ne 0 (omega arith) (ap (λ t. t % count) {x = j + 0} {y = j} (omega arith) ∙ q)

      here : slot (store buffer (i * size) item) j ≡ slot buffer j
      here =
          load-store_other buffer (i * size) item (j % count * size) size
            (rw e (apart (j % count) i ne_here))

  -- The last slot of the buffer ends where the buffer does.
  pub slot-fits : (i : ℕ) → i < count → i * size + size ≤ count * size
  slot-fits i h = grind arith

  -- Writing the slot behind a run that is not full makes the item the run's last.
  pub items-store :
      (buffer item : List ℕ) (j n : ℕ)
      → length buffer ≡ count * size
      → length item ≡ size
      → n < count
      → items (store buffer ((j + n) % count * size) item) j (suc n) ≡ items buffer j n ++ item ∷ []
  items-store buffer item j n sized e h =
      items-snoc _ j n
      ∙ ap₂ (λ q x. q ++ x ∷ [])
          (items-store_other buffer item ((j + n) % count) j n e
            (λ m lt. mod-ne (j + m) (j + n) (omega arith) (omega arith)))
          written
    where
      written : slot (store buffer ((j + n) % count * size) item) (j + n) ≡ item
      written =
          ap (load _ ((j + n) % count * size)) (sym e)
          ∙ load-store_self buffer ((j + n) % count * size) item
              (omega (arith, slot-fits ((j + n) % count) (mod-lt (j + n) (omega arith))))
