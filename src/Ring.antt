-- ===== src/Ring.antt =====
-- include/poski/OsRing.h: class OsRing, a ring of `item_count` items of `item_size` bytes with two
-- free-running 16-bit indices.
pub mod Fifo
pub mod Ops
pub mod Slots
pub mod Invariant
pub mod Refine
pub mod Create
pub mod Run
pub mod Observe
mod Tests
use poski.Base.{
  ℕ, ◌+◌, ◌-◌, ◌*◌, ◌%◌, ◌^◌, bit_and, Bool, true, false, not, ◌&&◌, Option, none, some, List, ltb,
  ◌==◌, if◌then◌else◌, u16, u32, memcpy, load, Outcome, done, assert, ◌>>=◌, ◌>>◌,
}

-- `_buffer` is the memory that the constructor allocates, byte by byte.
pub record Ring : Type 0 where
  pub buffer : List ℕ
  pub item_size : ℕ  -- uint16_t
  pub item_count : ℕ  -- uint16_t
  pub read_index : ℕ  -- uint16_t
  pub write_index : ℕ  -- uint16_t

-- The constructor. `storage` is what `new uint8_t[itemSize * itemCount]` returns.
unfoldable pub init : List ℕ → ℕ → ℕ → Outcome Ring
init storage item_size item_count = do
  assert (ltb 0 item_count && bit_and (item_count - 1) item_count == 0)
  done (record {
    buffer = storage;
    item_size = item_size;
    item_count = item_count;
    read_index = 0;
    write_index = 0;
  })

-- The destructor, with the memory that it gives back.
unfoldable pub destroy : Ring → List ℕ
destroy r = r.buffer

unfoldable pub size : Ring → ℕ
size r = u16 (r.write_index + 2 ^ 16 - r.read_index)

unfoldable pub empty : Ring → Bool
empty r = r.read_index == r.write_index

unfoldable pub full : Ring → Bool
unfolding size
full r = size r == r.item_count

-- `_itemCount - 1` is an `int`, converted to `unsigned`.
unfoldable pub mask : Ring → ℕ → ℕ
mask r index = bit_and index (u32 (r.item_count + 2 ^ 32 - 1))

unfoldable pub inc : ℕ → ℕ
inc index = u32 (index + 1)

-- The offset of `_buffer[mask(index) * _itemSize]`.
unfoldable pub offset : Ring → ℕ → ℕ
unfolding mask
offset r index = u32 (mask r index * r.item_size)

unfoldable pub push_back : Ring → List ℕ → Outcome Ring
unfolding full offset inc
push_back r item = do
  assert (not (full r))
  buffer ← memcpy r.buffer (offset r r.write_index) item r.item_size
  done (record r { buffer = buffer; write_index = u16 (inc r.write_index) })

unfoldable pub pop_front : Ring → Outcome Ring
unfolding empty inc
pop_front r = do assert (not (empty r)); done (record r { read_index = u16 (inc r.read_index) })

-- A pointer to the oldest item is its offset in the buffer; `none` is `NULL`.
unfoldable pub front : Ring → Option ℕ
unfolding empty offset
front r = if empty r then none else some (offset r r.read_index)

-- The bytes of the item that such a pointer shows.
unfoldable pub item_at : Ring → ℕ → List ℕ
item_at r off = load r.buffer off r.item_size
