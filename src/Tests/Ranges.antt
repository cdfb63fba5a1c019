-- ===== src/Tests/Ranges.antt =====
-- Trees of ranges: the theorems of `Range` at concrete arrays.
use light_rcu.Prelude.{
  ℕ, ◌≤◌, ◌<◌, ◌≡◌, ◌≢◌, refl, true, false, not, ◌==◌, if◌then◌else◌, ok, undefined, arith,
}
use light_rcu.Range.{
  range, Slots, RangeTree, live, add, optimize, optlevel_merge, squeeze, find, remove_overlapping,
  empty_value,
}
use light_rcu.Range.Spec.{covers, merge, IsDisjoint}
use light_rcu.Range.Merge.{IsTree, Merged, optimize-merge}
use light_rcu.Range.Overlap.{remove_overlapping_lem}
use light_rcu.Range.Squeeze.{Squeezed, chosen, squeeze-Squeezed, squeeze-full}
use light_rcu.Range.Search.{find-covers}
use light_rcu.Range.Library.{library_find, library_find-covers}
use light_rcu.Range.Add.{Outcome, add-Outcome}
use light_rcu.Tests.Sorting.{insertion}
use light_rcu.Tests.Searching.{linear_search}

-- Three disjoint ranges, with gaps of 2 and 6; the slots behind them hold 40 to 50.
abbrev three_slots : Slots
three_slots i =
    if i == 0
    then range 1 3
    else if i == 1
    then range 5 9
    else if i == 2
    then range 15 20
    else range 40 50

abbrev three_ranges : ℕ → RangeTree
three_ranges cap = record { len = 3; capacity = cap; sorted = true; r = three_slots }

-- Two ranges that overlap, out of order, and a third one.
abbrev mixed_slots : Slots
mixed_slots i =
    if i == 0
    then range 7 9
    else if i == 1
    then range 2 8
    else if i == 2
    then range 20 30
    else range 0 0

abbrev mixed : RangeTree
mixed = record { len = 3; capacity = 3; sorted = false; r = mixed_slots }

three_ranges-IsTree : (cap : ℕ) → 3 ≤ cap → IsTree (three_ranges cap)
three_ranges-IsTree room h = record {
  fits = h;
  used_all =
      ((omega arith, omega arith), ((omega arith, omega arith), ((omega arith, omega arith), tt)));
  ordered = λ e. (omega arith, (omega arith, (omega arith, tt)));
}

three_ranges-IsDisjoint : (cap : ℕ) → IsDisjoint (live (three_ranges cap))
three_ranges-IsDisjoint room =
    (omega arith, omega arith, (omega arith, omega arith, (omega arith, omega arith, tt)))

mixed-IsTree : IsTree mixed
mixed-IsTree = record {
  fits = omega arith;
  used_all =
      ((omega arith, omega arith), ((omega arith, omega arith), ((omega arith, omega arith), tt)));
  ordered = λ e. cc;
}

add-Outcome_example : Outcome mixed 100 120 (add insertion mixed 100 120)
add-Outcome_example =
    add-Outcome insertion mixed 100 120 mixed-IsTree (omega arith, omega arith) (omega arith)

find-covers_example : find (three_ranges 4) 7 ≡ ok (covers (live (three_ranges 4)) 7)
find-covers_example =
    find-covers (three_ranges 4) 7 (omega arith) (omega arith) (three_ranges-IsDisjoint 4)

optimize-merge_example :
    (t' : RangeTree) × (optimize insertion mixed optlevel_merge
      ≡ ok (t', not (t'.len == t'.capacity)))
    × Merged mixed t'
optimize-merge_example = optimize-merge insertion mixed mixed-IsTree

remove_overlapping_example :
    (t' : RangeTree) × (remove_overlapping (three_ranges 4) ≡ ok t')
    × (live t' ≡ merge (live (three_ranges 4)))
    × (t'.sorted ≡ true)
    × (t'.capacity ≡ 4)
remove_overlapping_example = remove_overlapping_lem (three_ranges 4) refl three_ranges-used
  where
    three_ranges-used : (q : ℕ) → q < 3 → (three_slots q).minv ≢ empty_value
    three_ranges-used q h = ground arith

squeeze-Squeezed_example :
    (t' : RangeTree) × (squeeze (three_ranges 4) ≡ ok t')
    × Squeezed (three_ranges 4) (chosen (three_ranges 4)) t'
squeeze-Squeezed_example =
    squeeze-Squeezed (three_ranges 4) (three_ranges-IsTree 4 (omega arith)) refl (omega arith)
      (three_ranges-IsDisjoint 4) (omega arith)

squeeze-full_example : squeeze (three_ranges 3) ≡ undefined
squeeze-full_example =
    squeeze-full (three_ranges 3) (three_ranges-IsTree 3 (omega arith)) refl (omega arith) refl

library_find-covers_example :
    library_find linear_search (three_ranges 4) 7 ≡ ok (covers (live (three_ranges 4)) 7)
library_find-covers_example =
    library_find-covers linear_search (three_ranges 4) 7 (omega arith) (three_ranges-IsDisjoint 4)
