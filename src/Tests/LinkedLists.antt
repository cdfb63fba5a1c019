-- ===== src/Tests/LinkedLists.antt =====
-- Two lists on one heap: the theorems on list.h at them.
use light_rcu.Prelude.{
  ◌≢◌, inl, inr, sym, ◌∙◌, update, Bool-cases, ==→eq, ℕ, ◌≡◌, refl, Bool, true, false, not, none,
  some, [], ◌∷◌, ◌==◌, if◌then◌else◌, ok, arith,
}
use light_rcu.LinkedList.{Heap, elem_of, find_ptr_unlink, sweep}
use light_rcu.LinkedList.Chain.{Cells, on, Chain}
use light_rcu.LinkedList.Splice.{Splices, splice_lem}
use light_rcu.LinkedList.Sweep.{values, sweep_lem}
use light_rcu.LinkedList.Find.{found, without, find_ptr_unlink_lem}
use light_rcu.LinkedList.Atomic.{Shared, away, swapping, resting, swap_hit}
use light_rcu.LinkedList.Atomic.Invariant.{owner, Owns, Holds}
use light_rcu.LinkedList.Atomic.Simulation.{Simulates, AtomicStep-Simulates}
use light_rcu.OldList
use light_rcu.OldList.Loops.{find_ptr_unlink-none}
use light_rcu.Rcu.Admin.{has, unlink}

abbrev two_lists : Heap
two_lists a =
    if a == 10
    then some (elem_of 20 1)
    else if a == 20
    then some (elem_of 30 2)
    else if a == 30
    then some (elem_of 0 3)
    else if a == 40
    then some (elem_of 0 5)
    else none

abbrev three_cells : Cells
three_cells = (10, 1) ∷ (20, 2) ∷ (30, 3) ∷ []

three_cells-Chain : Chain two_lists three_cells 0
three_cells-Chain =
    (omega arith, refl, refl, (omega arith, refl, refl, (omega arith, refl, refl, tt)))

abbrev is_two : ℕ → Bool
is_two v = v == 2

splice_example : Splices two_lists 10 ((40, 5) ∷ []) three_cells
splice_example =
    splice_lem two_lists 10 three_cells ((40, 5) ∷ []) three_cells-Chain
      (omega arith, refl, refl, tt) (λ a k. ground arith) (omega arith) (omega arith)

sweep_example :
    (g : Heap) × (sweep 10 is_two 10 two_lists ≡ ok ((10, 1 ∷ 2 ∷ 3 ∷ []), g))
    × Chain g ((10, 1) ∷ (30, 3) ∷ []) 0
    × ((b : ℕ) → on b three_cells ≡ true → on b ((10, 1) ∷ (30, 3) ∷ []) ≡ false → g b ≡ none)
    × ((b : ℕ) → on b three_cells ≡ false → g b ≡ two_lists b)
sweep_example =
    sweep_lem two_lists 10 10 is_two three_cells (refl, three_cells-Chain) (omega arith)
      (omega arith)

find_ptr_unlink_example :
    (g : Heap) × (find_ptr_unlink 10 10 2 true two_lists ≡ ok ((20, 10), g))
    × Chain g ((10, 1) ∷ (30, 3) ∷ []) 0
    × (values (without 2 three_cells) ≡ unlink 2 (values three_cells))
    × (not (found 2 three_cells == 0) ≡ has 2 (values three_cells))
find_ptr_unlink_example =
    find_ptr_unlink_lem two_lists 10 10 2 three_cells (refl, three_cells-Chain) (omega arith)
      (omega arith)

-- A thread that is about to put the element 40 in front of the element 10.
abbrev inserting_heap : Heap
inserting_heap a =
    if a == 10 then some (elem_of 0 1) else if a == 40 then some (elem_of 10 5) else none

abbrev inserting : Shared
inserting = record {
  heap = inserting_heap;
  head = 10;
  pcs = λ i. if i == 0 then swapping 40 5 10 else away;
  taker = resting;
}

inserting-owned : (i : ℕ) → Owns inserting_heap ((10, 1) ∷ []) [] (inserting.pcs i)
inserting-owned i = elim (Bool-cases (i == 0)) [
  | inl z ↦ rw z (omega arith, refl, refl, refl)
  | inr z ↦ rw z tt
]

owner-first : (i : ℕ) → owner (inserting.pcs i) ≢ 0 → i ≡ 0
owner-first i = elim (Bool-cases (i == 0)) [
  | inl z ↦ λ ne. ==→eq i 0 z
  | inr z ↦ rw z (λ ne. absurd (ne refl))
]

inserting-Holds : Holds inserting ((10, 1) ∷ []) []
inserting-Holds = record {
  head_ok = refl;
  stack = (omega arith, refl, refl, tt);
  batch = tt;
  apart = λ a k. refl;
  taker_ok = refl;
  owned = inserting-owned;
  single = λ i j ne e. owner-first i ne ∙ sym (owner-first j (λ z. ne (e ∙ z)));
}

AtomicStep-Simulates_example :
    Simulates (record inserting { head = 40; pcs = update inserting.pcs 0 away }) ((10, 1) ∷ []) []
AtomicStep-Simulates_example =
    AtomicStep-Simulates ((10, 1) ∷ []) [] inserting-Holds (swap_hit 0 40 5 10 refl refl)

find_ptr_unlink-none_example :
    OldList.find_ptr_unlink 10 10 2 true two_lists ≡ ok ((0, 10), two_lists)
find_ptr_unlink-none_example = find_ptr_unlink-none two_lists 9 10 2 true
