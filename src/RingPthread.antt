-- ===== src/RingPthread.antt =====
-- targets/posix/RingPthread.h: class RingPthread, an OsRing behind a mutex and a condition variable.
-- Here its methods as one thread runs them while it holds the mutex; Threads.antt interleaves them.
pub mod Spec
pub mod Monitor
pub mod Condvar
pub mod Wakeup
pub mod Threads
pub mod Invariant
pub mod Safety
pub mod Progress
mod Tests
use poski.Base.{
  ℕ, ◌*◌, not, ◌&&◌, Option, none, some, List, ◌==◌, if◌then◌else◌, u16, Outcome, done, blocked,
  ◌>>=◌, ◌>>◌,
}
use poski.Ring
use poski.Ring.{Ring}

-- The constructor takes `uint16_t`, so that the sizes of the caller are cut to 16 bits; `new_bytes`
-- is the allocator.
unfoldable pub init : (ℕ → List ℕ) → ℕ → ℕ → Outcome Ring
init new_bytes item_size item_count =
    Ring.init (new_bytes (u16 item_size * u16 item_count)) (u16 item_size) (u16 item_count)

-- The destructor, which destroys the mutex and the condition variable, and then the ring.
unfoldable pub destroy : Ring → List ℕ
unfolding Ring.destroy
destroy r = Ring.destroy r

-- `put` pushes under the mutex; its assertion is that of `push_back`.
unfoldable pub put : Ring → List ℕ → Outcome Ring
put r item = Ring.push_back r item

-- From `item = super_t::front()` on.
unfoldable pub take_front : Ring → Outcome (Option (List ℕ) × Ring)
take_front r = elim (Ring.front r) [
  | none ↦ done (none, r)
  | some off ↦ do r' ← Ring.pop_front r; done (some (Ring.item_at r off), r')
]

-- With a timeout other than 0 the loop waits on the condition variable until an item is there.
unfoldable pub get : Ring → ℕ → Outcome (Option (List ℕ) × Ring)
unfolding take_front
get r tmo =
    if not (tmo == 0) && Ring.size r == 0
    then blocked
    else if not (Ring.size r == 0)
    then take_front r
    else done (none, r)

unfoldable pub size : Ring → ℕ
size r = Ring.size r
