-- ===== src/Ring/Invariant.antt =====
-- What every object of class OsRing satisfies between two calls, and what follows for its index
-- arithmetic.
use native.Mathlib.Nat.{mod-lt, mod-eq_of_lt, pow-le-pow_right}
use poski.Base.{
  ℕ, ◌+◌, ◌-◌, ◌*◌, ◌%◌, ◌^◌, ◌≤◌, ◌<◌, ◌≡◌, sym, ap, ◌∙◌, arith, length, bit_and, u32,
}
use poski.Base.Bits.{bit_and-low_mask}
use poski.Ring.{Ring, size, mask, offset}
use poski.Ring.Slots.{slot-fits}

pub record IsValid (r : Ring) : Type 0 where
  pub width : ℕ
  pub width_le : width ≤ 15
  pub power : r.item_count ≡ 2 ^ width
  pub small_item : r.item_size < 2 ^ 16
  pub sized : length r.buffer ≡ r.item_count * r.item_size
  pub read_lt : r.read_index < 2 ^ 16
  pub write_lt : r.write_index < 2 ^ 16
  pub size_le : size r ≤ r.item_count

-- What a call keeps: the object stays valid, and its dimensions never change.
pub record Keeps (r r' : Ring) : Type 0 where
  pub valid : IsValid r'
  pub same_count : r'.item_count ≡ r.item_count
  pub same_size : r'.item_size ≡ r.item_size

module _ {r : Ring} (v : IsValid r) where
  open v use {width, width_le, power, small_item}

  pub count_le : r.item_count ≤ 2 ^ 15
  count_le =
      omega (arith, pow-le-pow_right {n = 2} (omega arith) {i = width} {j = 15} width_le, power)

  pub count_pos : 0 < r.item_count
  count_pos =
      omega (arith, pow-le-pow_right {n = 2} (omega arith) {i = 0} {j = width} (omega arith), power)

  -- `mask` is the remainder by the number of items.
  pub mask_lem : (index : ℕ) → mask r index ≡ index % r.item_count
  unfolding mask
  mask_lem index =
      ap (bit_and index) (minus_one ∙ ap (λ t. t - 1) power)
      ∙ bit_and-low_mask width index
      ∙ ap (λ t. index % t) (sym power)
    where
      minus_one : u32 (r.item_count + 2 ^ 32 - 1) ≡ r.item_count - 1
      minus_one = omega (arith, count_le, count_pos)

  pub mask-lt : (index : ℕ) → mask r index < r.item_count
  mask-lt index = omega (arith, mask_lem index, mod-lt index count_pos)

  -- The size of the buffer fits a signed 32-bit `int`, in which `itemSize * itemCount` is computed.
  pub buffer_size_lt : r.item_size * r.item_count < 2 ^ 31
  buffer_size_lt = grind (arith, count_le)

  mask_offset_lt : (index : ℕ) → mask r index * r.item_size < 2 ^ 31
  mask_offset_lt index = grind (arith, count_le, mask-lt)

  -- The offset of an item is its slot, with no wrap.
  pub offset_lem : (index : ℕ) → offset r index ≡ index % r.item_count * r.item_size
  unfolding offset
  offset_lem index =
      mod-eq_of_lt (omega (arith, mask_offset_lt index))
      ∙ ap (λ t. t * r.item_size) (mask_lem index)

  -- A whole item fits at the offset of any index.
  pub offset-fits : (index : ℕ) → offset r index + r.item_size ≤ length r.buffer
  offset-fits index = omega (
    arith,
    offset_lem index,
    slot-fits r.item_count r.item_size (index % r.item_count) (mod-lt index count_pos),
    v.sized,
  )
