-- ===== src/Range/Merge.antt =====
-- `lrcu_rangetree_optimize` at the level `RANGE_BINTREE_OPTLEVEL_MERGE`.
use light_rcu.Prelude.{
  ℕ, suc, ◌+◌, ◌≤◌, ◌≡◌, refl, ◌∙◌, ap, true, not, List, [], ◌∷◌, ◌==◌, Bool-cases, inl, inr, arith,
  length, All, ok, ltb,
}
use light_rcu.Qsort.{Qsort}
use light_rcu.Range.{Range, range, RangeTree, live, ensure_sorted, optimize, optlevel_merge}
use light_rcu.Range.Spec.{
  covers, Ascends, AscendsFrom, IsDisjoint, DisjointFrom, IsProper, larger, merge_from, merge,
  merge_from-apart, merge_from-meet, AscendsFrom-le, covers-merge, merge-IsDisjoint,
}
use light_rcu.Range.Overlap.{remove_overlapping_lem}
use light_rcu.Range.Order.{IsUsed, Sorted, ensure_sorted-Sorted, length-slice}
use light_rcu.Range.Slices.{All-slice}

-- A tree as the code keeps it.
pub record IsTree (t : RangeTree) : Type 0 where
  pub fits : t.len ≤ t.capacity
  pub used_all : All IsUsed (live t)
  pub ordered : t.sorted ≡ true → Ascends (live t)

All-IsProper : (xs : List Range) → All IsUsed xs → All IsProper xs
All-IsProper [] h = tt
All-IsProper (x ∷ xs) h = (h.0.1, All-IsProper xs h.1)

length-merge_from : (x : Range) (ys : List Range) → length (merge_from x ys) ≤ suc (length ys)
unfolding merge_from
length-merge_from x [] = omega arith
length-merge_from x (y ∷ ys) =
    ground
      (arith, length-merge_from y ys, length-merge_from (range x.minv (larger x.maxv y.maxv)) ys)

length-merge : (xs : List Range) → length (merge xs) ≤ length xs
unfolding merge
length-merge [] = omega arith
length-merge (x ∷ xs) = length-merge_from x xs

-- Merging keeps lower ends that are in use.
IsUsed-merge_from :
    (x : Range) (ys : List Range)
    → IsUsed x
    → All IsUsed ys
    → AscendsFrom x.minv ys
    → All IsUsed (merge_from x ys)
IsUsed-merge_from x [] u us h = unfold merge_from in (u, tt)
IsUsed-merge_from x (y ∷ ys) u us h = elim (Bool-cases (ltb x.maxv y.minv)) [
  | inl apart ↦ rw (merge_from-apart x y ys apart) (u, IsUsed-merge_from y ys us.0 us.1 h.1)
  | inr meet ↦ rw (merge_from-meet x y ys meet) (
      IsUsed-merge_from (range x.minv (larger x.maxv y.maxv)) ys (u.0, ground arith) us.1
        (AscendsFrom-le x.minv y.minv ys h.0 h.1))
]

IsUsed-merge : (xs : List Range) → All IsUsed xs → Ascends xs → All IsUsed (merge xs)
unfolding merge
IsUsed-merge [] us h = tt
IsUsed-merge (x ∷ xs) us h = IsUsed-merge_from x xs us.0 us.1 h.1

pub Disjoint-Ascends : (lo : ℕ) (xs : List Range) → DisjointFrom lo xs → AscendsFrom lo xs
Disjoint-Ascends lo [] d = tt
Disjoint-Ascends lo (x ∷ xs) d = (
  d.0,
  AscendsFrom-le x.minv (x.maxv + 1) xs (omega arith) (Disjoint-Ascends (x.maxv + 1) xs d.2),
)

-- What the merge level leaves.
pub record Merged (t t' : RangeTree) : Type 0 where
  pub tree : IsTree t'
  pub is_sorted : t'.sorted ≡ true
  pub disjoint : IsDisjoint (live t')
  pub shorter : t'.len ≤ t.len
  pub same_capacity : t'.capacity ≡ t.capacity
  pub same_cover : (v : ℕ) → covers (live t') v ≡ covers (live t) v

-- A sorted tree `s` made from `t`, and what `remove_overlapping` makes of it.
Sorted-Merged :
    {t s t' : RangeTree}
    → t.len ≤ t.capacity
    → Sorted t s
    → live t' ≡ merge (live s)
    → t'.sorted ≡ true
    → t'.capacity ≡ s.capacity
    → Merged t t'
Sorted-Merged {t} {s} {t'} fits so e sorted cap =
    let d : IsDisjoint (live t') =
      rw e (merge-IsDisjoint (live s) so.ascends (All-IsProper (live s) so.used_all)) in
    let shorter : t'.len ≤ t.len = omega (
      arith,
      length-merge (live s),
      length-slice t'.r 0 t'.len,
      length-slice s.r 0 s.len,
      ap length e,
      so.len_eq,
    ) in
    record {
      tree = record {
        fits = omega (arith, so.capacity_eq);
        used_all = rw e (IsUsed-merge (live s) so.used_all so.ascends);
        ordered = λ _. Disjoint-Ascends 0 (live t') d;
      };
      is_sorted = sorted;
      disjoint = d;
      shorter = shorter;
      same_capacity = cap ∙ so.capacity_eq;
      same_cover =
          λ v. ap (λ xs. covers xs v) e ∙ covers-merge v (live s) so.ascends ∙ so.same_cover v;
    }

module _ (q : Qsort Range) (t : RangeTree) (h : IsTree t) where
  -- On a tree whose ranges fit and are in use, the merge level ends normally. It leaves a sorted
  -- tree of disjoint ranges, no more than before, that covers the same versions, and reports
  -- whether the array has room.
  pub optimize-merge :
      (t' : RangeTree) × (optimize q t optlevel_merge ≡ ok (t', not (t'.len == t'.capacity)))
      × Merged t t'
  unfolding optimize
  optimize-merge =
      let so = ensure_sorted-Sorted q t h.ordered h.used_all in
      let (t', runs, e, sorted, cap) =
        remove_overlapping_lem (ensure_sorted q t) so.is_sorted (λ k p.
          (All-slice IsUsed (ensure_sorted q t).r 0 (ensure_sorted q t).len so.used_all k
            (omega arith) (omega arith)).0) in
      (t', rw runs refl, Sorted-Merged h.fits so e sorted cap)
