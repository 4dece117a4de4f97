-- ===== src/Ring/Tests.antt =====
-- OsRing on concrete objects: two items of two bytes each.
use poski.Base.{
  memcpy, ℕ, ◌+◌, ◌<◌, ◌≤◌, ◌≡◌, ◌↔◌, ◌^◌, refl, true, some, List, [], ◌∷◌, arith, replicate, done,
  assert_failed,
}
use mathlib.Core.Option
use poski.Ring.Ops.{Op, push, pop, peek, count, is_empty, is_full, nothing, item, number, flag}
use poski.Ring.Fifo
use poski.Ring.{Ring, init, size, empty, full, offset, push_back, pop_front, front, item_at}
use poski.Ring.Invariant.{IsValid, buffer_size_lt, offset-fits}
use poski.Ring.Refine.{contents, front_refines}
use poski.Ring.Create.{fresh, init_iff, fresh-IsValid}
use poski.Ring.Run.{run, run_refines}
use poski.Ring.Observe.{SameRuns, SameRuns-contents, Queue}
use mathlib.Core.Quot
use poski.Base.{sym, ◌∙◌}

-- Both indices count on past 65535: the next write is at index 1, the next read at 65535.
abbrev wrapped : Ring
wrapped = record {
  buffer = 5 ∷ 6 ∷ 3 ∷ 4 ∷ [];
  item_size = 2;
  item_count = 2;
  read_index = 65535;
  write_index = 0;
}

wrapped-IsValid : IsValid wrapped
unfolding size
wrapped-IsValid = record {
  width = 1;
  width_le = omega arith;
  power = refl;
  small_item = omega arith;
  sized = refl;
  read_lt = omega arith;
  write_lt = omega arith;
  size_le = omega arith;
}

contents-wrapped : contents wrapped ≡ (3 ∷ 4 ∷ []) ∷ []
unfolding size
contents-wrapped = refl

abbrev script : List Op
script = peek ∷ push (7 ∷ 8 ∷ []) ∷ is_full ∷ pop ∷ peek ∷ count ∷ pop ∷ is_empty ∷ []

run-wrapped :
    run wrapped script
    ≡ done (
        item (some (3 ∷ 4 ∷ []))
        ∷ nothing
        ∷ flag true
        ∷ nothing
        ∷ item (some (7 ∷ 8 ∷ []))
        ∷ number 1
        ∷ nothing
        ∷ flag true
        ∷ [])
unfolding run push_back pop_front front item_at full empty memcpy
run-wrapped = refl

run_aborts : run wrapped (pop ∷ pop ∷ []) ≡ assert_failed
unfolding run pop_front
run_aborts = refl

init_three : init (replicate 6 0) 2 3 ≡ assert_failed
unfolding init
init_three = refl

init_iff_example :
    ((k : ℕ) × (4 ≡ 2 ^ k)) ↔ (init (replicate 8 0) 2 4 ≡ done (fresh (replicate 8 0) 2 4))
init_iff_example = init_iff (replicate 8 0) 2 4

fresh-IsValid_example :
    IsValid (fresh (replicate 8 0) 2 4) × (contents (fresh (replicate 8 0) 2 4) ≡ [])
fresh-IsValid_example = fresh-IsValid (replicate 8 0) 2 4 (omega arith) (omega arith) refl (2, refl)

buffer_size_lt_example : 4 < 2 ^ 31
buffer_size_lt_example = buffer_size_lt wrapped-IsValid

offset-fits_example : offset wrapped 65535 + 2 ≤ 4
offset-fits_example = offset-fits wrapped-IsValid 65535

front_refines_example : Option.map (item_at wrapped) (front wrapped) ≡ Fifo.front (contents wrapped)
front_refines_example = front_refines wrapped-IsValid

run_refines_example : run wrapped script ≡ Fifo.run 2 (contents wrapped) script
run_refines_example = run_refines script wrapped-IsValid (omega arith)

-- The same item at another place, with other bytes behind it.
abbrev moved : Ring
moved = record {
  buffer = 3 ∷ 4 ∷ 9 ∷ 9 ∷ [];
  item_size = 2;
  item_count = 2;
  read_index = 10;
  write_index = 11;
}

moved-IsValid : IsValid moved
unfolding size
moved-IsValid = record {
  width = 1;
  width_le = omega arith;
  power = refl;
  small_item = omega arith;
  sized = refl;
  read_lt = omega arith;
  write_lt = omega arith;
  size_le = omega arith;
}

contents-moved : contents moved ≡ (3 ∷ 4 ∷ []) ∷ []
unfolding size
contents-moved = refl

SameRuns-contents_example : SameRuns wrapped moved ↔ (contents wrapped ≡ contents moved)
SameRuns-contents_example = SameRuns-contents wrapped-IsValid moved-IsValid refl refl

-- As queues they are one.
wrapped_is_moved :
    ◌≡◌ {A = Queue 2 2}
      (Quot.mk (wrapped, wrapped-IsValid, refl, refl))
      (Quot.mk (moved, moved-IsValid, refl, refl))
wrapped_is_moved = Quot.sound (SameRuns-contents_example.1 (contents-wrapped ∙ sym contents-moved))
