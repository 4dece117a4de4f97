-- ===== src/Ring/Create.antt =====
-- The constructor of OsRing: the dimensions that it takes, and the object that it makes.
use native.Mathlib.Decide.{dec_le}
use native.Mathlib.Nat.{pow-le-pow_right, one-le-pow}
use poski.Base.{
  ltb, ◌==◌, ◌&&◌, ℕ, ◌-◌, ◌*◌, ◌^◌, ◌≤◌, ◌<◌, ◌≡◌, ◌↔◌, ◌≢◌, inl, inr, Bool-cases, assert_failed,
  refl, ap, ap₂, List, [], arith, length, bit_and, done,
}
use poski.Base.Bits.{pow_two_of_bit_and, bit_and_of_pow_two}
use poski.Ring.{Ring, init, size}
use poski.Ring.Invariant.{IsValid}
use poski.Ring.Refine.{contents}

module _ (storage : List ℕ) (item_size item_count : ℕ) where
  abbrev pub fresh : Ring
  fresh = record {
    buffer = storage;
    item_size = item_size;
    item_count = item_count;
    read_index = 0;
    write_index = 0;
  }

  -- The constructor's assertion passes exactly for a power of two, and the object is then empty;
  -- for any other number of items it fails.
  pub init_iff : ((k : ℕ) × (item_count ≡ 2 ^ k)) ↔ (init storage item_size item_count ≡ done fresh)
  unfolding init
  init_iff = (accepted, only_powers)
    where
      accepted : (k : ℕ) × (item_count ≡ 2 ^ k) → init storage item_size item_count ≡ done fresh
      accepted (k, e) = ground (
        arith,
        one-le-pow k 2 (omega arith),
        bit_and_of_pow_two k,
        ap₂ bit_and (ap (λ t. t - 1) e) e,
      )

      only_powers : init storage item_size item_count ≡ done fresh → (k : ℕ) × (item_count ≡ 2 ^ k)
      only_powers h = pow_two_of_bit_and item_count (ground arith) (ground arith)

  pub init-assert :
      ((k : ℕ) → item_count ≢ 2 ^ k) → init storage item_size item_count ≡ assert_failed
  unfolding init
  init-assert no_power =
      elim (Bool-cases (ltb 0 item_count && bit_and (item_count - 1) item_count == 0)) [
        | inl e ↦ absurd (let (k, h) = power (ground arith) (ground arith) in no_power k h)
        | inr e ↦ rw e refl
      ]
    where
      power :
          0 < item_count → bit_and (item_count - 1) item_count ≡ 0 → (k : ℕ) × (item_count ≡ 2 ^ k)
      power = pow_two_of_bit_and item_count

  -- A fresh object is valid, if the dimensions fit `uint16_t` and the allocator returned as many
  -- bytes as were asked for.
  pub fresh-IsValid :
      item_size < 2 ^ 16
      → item_count < 2 ^ 16
      → length storage ≡ item_size * item_count
      → (k : ℕ) × (item_count ≡ 2 ^ k)
      → IsValid fresh × (contents fresh ≡ [])
  unfolding size
  fresh-IsValid s c sized (k, e) = (
    record {
      width = k;
      width_le = small (dec_le k 15);
      power = e;
      small_item = s;
      sized = grind arith;
      read_lt = omega arith;
      write_lt = omega arith;
      size_le = omega arith;
    },
    refl,
  )
    where
      small : Dec (k ≤ 15) → k ≤ 15
      small (yes h) = h
      small (no h) =
          absurd
            (omega (arith, pow-le-pow_right {n = 2} (omega arith) {i = 16} {j = k} (omega arith)))
