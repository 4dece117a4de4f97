-- ===== src/Ring/Refine.antt =====
-- Each method of OsRing against the bounded queue of the items that the ring holds.
use poski.Base.{
  ℕ, suc, ◌+◌, ◌*◌, ◌%◌, ◌^◌, ◌≡◌, refl, sym, ap, ap₂, ◌∙◌, inl, inr, true, false, List, [], ◌∷◌,
  ◌++◌, arith, length, load, store, u16, u32, memcpy-whole, length-store, ◌==◌, ==→eq, ==→ne, ne→==,
  eq→==, ◌<◌, ◌≢◌, none, some, Bool-cases, done, assert_failed, ◌>>=◌, Ensures,
}
use poski.Base.Bits.{mod-mod_pow_two}
use mathlib.Core.Option
use poski.Ring.Fifo
use poski.Ring.Fifo.{Fifo}
use poski.Ring.{Ring, size, empty, full, push_back, pop_front, front, offset, inc, item_at}
use poski.Ring.Slots.{items, items-congr, items-store, length-items}
use poski.Ring.Invariant.{IsValid, Keeps, count_le, offset_lem, offset-fits}

-- The items that a ring holds, oldest first.
abbrev pub contents : Ring → Fifo
contents r = items r.item_count r.item_size r.buffer r.read_index (size r)

pub length-contents : (r : Ring) → length (contents r) ≡ size r
length-contents r = length-items r.item_count r.item_size r.buffer r.read_index (size r)

pub full_lem : (r : Ring) → full r ≡ (size r == r.item_count)
unfolding full
full_lem r = refl

abbrev pushed : Ring → List ℕ → Ring
pushed r item = record r {
  buffer = store r.buffer (offset r r.write_index) item;
  write_index = u16 (u32 (r.write_index + 1));
}

abbrev popped : Ring → Ring
popped r = record r { read_index = u16 (u32 (r.read_index + 1)) }

module _ {r : Ring} (v : IsValid r) where
  -- The indices are equal exactly if the ring holds nothing.
  pub empty_lem : empty r ≡ (size r == 0)
  unfolding empty size
  empty_lem = ground (arith, v.read_lt, v.write_lt)

  -- The write index is `size` past the read index, up to the wrap.
  write_wraps : r.write_index ≡ (r.read_index + size r) % 2 ^ 16
  unfolding size
  write_wraps = omega (arith, v.read_lt, v.write_lt)

  write_slot : r.write_index % r.item_count ≡ (r.read_index + size r) % r.item_count
  write_slot =
      ap (λ t. t % r.item_count) write_wraps
      ∙ ap (λ c. (r.read_index + size r) % 2 ^ 16 % c) v.power
      ∙ mod-mod_pow_two v.width _ (omega (arith, v.width_le))
      ∙ ap (λ c. (r.read_index + size r) % c) (sym v.power)

  size-popped : empty r ≡ false → size r ≡ suc (size (popped r))
  unfolding size empty
  size-popped e = ground (arith, v.read_lt, v.write_lt)

  -- The next read index is the next slot, also where it wraps.
  read_slot : (popped r).read_index % r.item_count ≡ suc r.read_index % r.item_count
  read_slot =
      ap (λ t. t % r.item_count) {y = suc r.read_index % 2 ^ 16} (omega arith)
      ∙ ap (λ c. suc r.read_index % 2 ^ 16 % c) v.power
      ∙ mod-mod_pow_two v.width _ (omega (arith, v.width_le))
      ∙ ap (λ c. suc r.read_index % c) (sym v.power)

  contents-popped :
      empty r ≡ false
      → contents r ≡ load r.buffer (offset r r.read_index) r.item_size ∷ contents (popped r)
  contents-popped e =
      ap (items r.item_count r.item_size r.buffer r.read_index) (size-popped e)
      ∙ ap₂ ◌∷◌ (ap (λ o. load r.buffer o r.item_size) (sym (offset_lem v r.read_index)))
          (items-congr r.item_count r.item_size r.buffer _ _ (size (popped r)) (sym read_slot))

  popped-Keeps : empty r ≡ false → Keeps r (popped r)
  popped-Keeps e = record {
    valid = record {
      width = v.width;
      width_le = v.width_le;
      power = v.power;
      small_item = v.small_item;
      sized = v.sized;
      read_lt = omega arith;
      write_lt = v.write_lt;
      size_le = omega (arith, size-popped e, v.size_le);
    };
    same_count = refl;
    same_size = refl;
  }

  -- `pop_front` removes the oldest item, or fails its assertion on an empty ring, and keeps the
  -- object valid.
  pub pop_front_refines :
      ((pop_front r >>= λ r'. done (contents r')) ≡ Fifo.pop_front (contents r))
      × Ensures (Keeps r) (pop_front r)
  unfolding pop_front Fifo.pop_front inc
  pop_front_refines = elim (Bool-cases (empty r)) [
    | inl e ↦ rw e (nothing_left e, tt)
    | inr e ↦ rw (e, contents-popped e) (refl, popped-Keeps e)
  ]
    where
      nothing_left : empty r ≡ true → assert_failed ≡ Fifo.pop_front (contents r)
      nothing_left e =
          ap (λ n. Fifo.pop_front (items r.item_count r.item_size r.buffer r.read_index n)) {x = 0}
            {y = size r} (sym (==→eq (size r) 0 (sym empty_lem ∙ e)))

  -- `front` shows the bytes of the oldest item, and is null exactly on an empty ring.
  pub front_refines : Option.map (item_at r) (front r) ≡ Fifo.front (contents r)
  unfolding front Fifo.front item_at
  front_refines = elim (Bool-cases (empty r)) [
    | inl e ↦ rw e (
        ap (λ n. Fifo.front (items r.item_count r.item_size r.buffer r.read_index n)) {x = 0}
          {y = size r} (sym (==→eq (size r) 0 (sym empty_lem ∙ e))))
    | inr e ↦ rw (e, contents-popped e)
  ]

-- `front` and `pop_front` by what the ring holds.
pub front-empty : {r : Ring} → IsValid r → size r ≡ 0 → front r ≡ none
unfolding front
front-empty {r} v e = rw (empty_lem v) (rw e refl)

pub front-pop :
    {r : Ring}
    → IsValid r
    → size r ≢ 0
    → (r' : Ring) × (front r ≡ some (offset r r.read_index))
      × (pop_front r ≡ done r')
      × Keeps r r'
      × (contents r ≡ item_at r (offset r r.read_index) ∷ contents r')
unfolding front pop_front item_at inc
front-pop {r} v ne = (
  popped r,
  rw nonempty refl,
  rw nonempty refl,
  popped-Keeps v nonempty,
  contents-popped v nonempty,
)
  where
    nonempty : empty r ≡ false
    nonempty = empty_lem v ∙ ne→== (size r) 0 ne

module _ {r : Ring} (v : IsValid r) (item : List ℕ) (whole : length item ≡ r.item_size) where
  push_back_ok : full r ≡ false → push_back r item ≡ done (pushed r item)
  unfolding push_back inc
  push_back_ok e = rw (
    e,
    memcpy-whole r.buffer (offset r r.write_index) item r.item_size whole
        (offset-fits v r.write_index),
  )

  push_back-full : full r ≡ true → push_back r item ≡ assert_failed
  unfolding push_back
  push_back-full e = rw e

  size-pushed : full r ≡ false → size (pushed r item) ≡ suc (size r)
  unfolding full size
  size-pushed e = ground (arith, v.read_lt, v.write_lt, v.size_le, count_le v)

  pushed-Keeps : full r ≡ false → Keeps r (pushed r item)
  unfolding full
  pushed-Keeps e = record {
    valid = record {
      width = v.width;
      width_le = v.width_le;
      power = v.power;
      small_item = v.small_item;
      sized = length-store r.buffer _ item ∙ v.sized;
      read_lt = v.read_lt;
      write_lt = omega arith;
      size_le = omega (arith, size-pushed e, v.size_le, ==→ne _ _ e);
    };
    same_count = refl;
    same_size = refl;
  }

  contents-pushed : full r ≡ false → contents (pushed r item) ≡ contents r ++ item ∷ []
  unfolding full
  contents-pushed e =
      ap₂ (λ o n. items r.item_count r.item_size (store r.buffer o item) r.read_index n)
        (offset_lem v r.write_index ∙ ap (λ t. t * r.item_size) (write_slot v)) (size-pushed e)
      ∙ items-store r.item_count r.item_size r.buffer item r.read_index (size r) v.sized whole
          (omega (arith, v.size_le, ==→ne _ _ e))

  -- `push_back` adds the item at the end, or fails its assertion on a full ring, and keeps the
  -- object valid.
  pub push_back_refines :
      ((push_back r item >>= λ r'. done (contents r'))
        ≡ Fifo.push_back r.item_count (contents r) item)
      × Ensures (Keeps r) (push_back r item)
  unfolding Fifo.push_back
  push_back_refines = elim (Bool-cases (full r)) [
    | inl e ↦ rw (push_back-full e, at_capacity) (rw e refl, tt)
    | inr e ↦ rw (push_back_ok e, at_capacity) (rw e (ap done (contents-pushed e)), pushed-Keeps e)
  ]
    where
      at_capacity : (length (contents r) == r.item_count) ≡ full r
      at_capacity = ap (λ n. n == r.item_count) (length-contents r) ∙ sym (full_lem r)

  -- The same by what the ring holds.
  pub push_back-room :
      size r < r.item_count
      → (r' : Ring) × (push_back r item ≡ done r')
        × Keeps r r'
        × (contents r' ≡ contents r ++ item ∷ [])
  push_back-room lt = (pushed r item, push_back_ok room, pushed-Keeps room, contents-pushed room)
    where
      room : full r ≡ false
      room = full_lem r ∙ ne→== (size r) r.item_count (omega arith)

pub push_back-overflow :
    (r : Ring) (item : List ℕ) → size r ≡ r.item_count → push_back r item ≡ assert_failed
unfolding push_back
push_back-overflow r item e = rw (full_lem r ∙ eq→== (size r) r.item_count e)
