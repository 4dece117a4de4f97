-- ===== src/Ring/Fifo.antt =====
-- What OsRing promises: a queue of at most `cap` items, oldest first. Pushing to a full queue and
-- popping from an empty one fail an assertion.
use poski.Base.{ℕ, Option, none, some, List, [], ◌∷◌, ◌++◌, ◌==◌, length, if◌then◌else◌}
use poski.Base.{Outcome, done, assert_failed, ◌>>=◌}
use poski.Ring.Ops.{
  Op, push, pop, peek, count, is_empty, is_full, Reply, nothing, item, number, flag,
}

abbrev pub Fifo : Type 0
Fifo = List (List ℕ)

unfoldable pub front : Fifo → Option (List ℕ)
front [] = none
front (x ∷ q) = some x

unfoldable pub pop_front : Fifo → Outcome Fifo
pop_front [] = assert_failed
pop_front (x ∷ q) = done q

module _ (cap : ℕ) where
  unfoldable pub push_back : Fifo → List ℕ → Outcome Fifo
  push_back q x = if length q == cap then assert_failed else done (q ++ x ∷ [])

  unfoldable pub step : Fifo → Op → Outcome (Fifo × Reply)
  unfolding front pop_front push_back
  step q (push x) = push_back q x >>= λ q'. done (q', nothing)
  step q pop = pop_front q >>= λ q'. done (q', nothing)
  step q peek = done (q, item (front q))
  step q count = done (q, number (length q))
  step q is_empty = done (q, flag (length q == 0))
  step q is_full = done (q, flag (length q == cap))

  unfoldable pub run : Fifo → List Op → Outcome (List Reply)
  unfolding step
  run q [] = done []
  run q (op ∷ ops) = step q op >>= λ p. run p.0 ops >>= λ out. done (p.1 ∷ out)
