-- ===== src/RingPthread/Invariant.antt =====
-- What holds in every state that the threads of RingPthread reach: who owns the mutex, what a thread
-- knows of the ring, and where the items are.
mod Kept
mod Locals
mod Steps
pub use Kept.{push-Keeps, pop-Keeps}
pub use Locals.{Facts, Thread, Frame}
pub use Steps.{Inv, Step-Inv}
use poski.Base.{ℕ, ◌≡◌, refl, none, List, [], arith}
use poski.Ring.{Ring}
use poski.Ring.Invariant.{IsValid}
use poski.Ring.Refine.{contents}
use poski.RingPthread.Monitor.{Monitor}
use poski.RingPthread.Threads.{System, Step, Reach, start, later}

module _ (M : Monitor) where
  open M use {State, owner}

  pub Reach-Inv :
      {r : Ring} {m : State} {s : System M}
      → IsValid r
      → contents r ≡ []
      → owner m ≡ none
      → Reach M r m s
      → Inv M s
  Reach-Inv v e free start = record {
    valid = v;
    flow = rw e;
    once = λ t h. cc;
    threads = λ t. record { holds = λ h. cc; held = λ h. cc; facts = tt };
  }
  Reach-Inv v e free (later r st) = Step-Inv M st (Reach-Inv v e free r)
