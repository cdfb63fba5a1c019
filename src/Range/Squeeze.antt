-- ===== src/Range/Squeeze.antt =====
-- `lrcu_rangetree_squeeze`: two neighbours become one range. Which two, what the tree covers then,
-- and what happens on a full array.
use light_rcu.Prelude.{
  ℕ, ◌+◌, ◌-◌, ◌≤◌, ◌<◌, ◌≡◌, ◌≢◌, refl, true, ◌==◌, ◌⊎◌, Bool-cases, inl, inr, arith, ok, ltb, leb,
  ltb→le, lt→ltb, le→ltb, subst, ==→ne, ==→eq, if◌then◌else◌, update, undefined, ◌&&◌,
}
use light_rcu.Range.{
  range, Slots, RangeTree, slice, live, sub64, u64_mod, u64_max, empty_value, squeeze_loop,
  move_down, squeeze,
}
use light_rcu.Range.Spec.{contains, covers, IsDisjoint}
use light_rcu.Range.Order.{IsUsed}
use light_rcu.Range.Merge.{IsTree, Disjoint-Ascends}
use light_rcu.Range.Slices.{
  Apart, Disjoint-Apart, Apart-Disjoint, covers-some, covers-index, All-slice, slice-All,
}
use light_rcu.Range.Gaps.{gap, squeeze_loop-le, squeeze_loop-pos, squeeze_loop-least}

-- The array after the squeeze at `k`.
abbrev joined : Slots → ℕ → Slots
joined r k = update r k (range (r k).minv (r (k + 1)).maxv)

abbrev squeezed : Slots → ℕ → ℕ → Slots
squeezed r k len i =
    if leb (k + 1) i && ltb i (k + 1 + (len - k - 1)) then joined r k (i + 1) else joined r k i

module _ (r : Slots) (k len : ℕ) (below : k + 1 < len) (a : Apart r 0 len) where
  abbrev after : Slots
  after = squeezed r k len

  after-Apart : Apart after 0 (len - 1)
  after-Apart = record {
    proper = λ i p q.
        ground
          (arith, a.proper i, a.proper (i + 1), a.proper k, a.proper (k + 1), a.apart k (k + 1));
    apart = λ i j p q s. ground (
      arith,
      a.apart i j,
      a.apart i (j + 1),
      a.apart (i + 1) (j + 1),
      a.apart (k + 1) (j + 1),
      a.apart i k,
    );
  }

  covers-after :
      (v : ℕ) → covers (slice r 0 len) v ≡ true → covers (slice after 0 (len - 1)) v ≡ true
  covers-after v h =
      let (i, _, l, c) = covers-index r v 0 len h in
      elim (Bool-cases (leb i k)) [
        | inl left ↦
            covers-some after v 0 (len - 1) i (omega arith) (ground arith)
              (ground (arith, a.proper (k + 1), a.apart k (k + 1)))
        | inr right ↦
            covers-some after v 0 (len - 1) (i - 1) (omega arith) (ground arith)
              (ground (arith, a.proper k, a.apart k (k + 1)))
      ]

  -- Only versions between the two ranges are new.
  covers-only :
      (v : ℕ)
      → covers (slice after 0 (len - 1)) v ≡ true
      → (covers (slice r 0 len) v ≡ true) ⊎ (((r k).maxv < v) × (v < (r (k + 1)).minv))
  covers-only v h =
      let (i, _, l, c) = covers-index after v 0 (len - 1) h in
      elim (Bool-cases (i == k)) [
        | inl here ↦
            let e : after k ≡ range (r k).minv (r (k + 1)).maxv = ground arith in
            let in_k : contains (range (r k).minv (r (k + 1)).maxv) v ≡ true =
              subst (λ x. contains x v ≡ true) e
                (subst (λ (x : ℕ). contains (after x) v ≡ true) (==→eq i k here) c) in
            elim (Bool-cases (leb v (r k).maxv)) [
              | inl low ↦ inl (covers-some r v 0 len k (omega arith) (omega arith) (ground arith))
              | inr past ↦ elim (Bool-cases (leb (r (k + 1)).minv v)) [
                | inl high ↦
                    inl (covers-some r v 0 len (k + 1) (omega arith) (omega arith) (ground arith))
                | inr short ↦ inr (ground arith, ground arith)
              ]
            ]
        | inr other ↦ elim (Bool-cases (ltb i k)) [
          | inl left ↦ inl (covers-some r v 0 len i (omega arith) (omega arith) (ground arith))
          | inr right ↦ inl (
              covers-some r v 0 len (i + 1) (omega arith)
                (omega (arith, ltb→le i k right, ==→ne i k other)) (ground arith))
        ]
      ]

-- What a squeeze leaves: one range less; the same versions and those between slots `at` and `at + 1`.
pub record Squeezed (t : RangeTree) (at : ℕ) (t' : RangeTree) : Type 0 where
  pub tree : IsTree t'
  pub is_sorted : t'.sorted ≡ true
  pub disjoint : IsDisjoint (live t')
  pub len_eq : t'.len + 1 ≡ t.len
  pub same_capacity : t'.capacity ≡ t.capacity
  pub keeps : (v : ℕ) → covers (live t) v ≡ true → covers (live t') v ≡ true
  pub adds_gap :
      (v : ℕ)
      → covers (live t') v ≡ true
      → (covers (live t) v ≡ true) ⊎ (((t.r at).maxv < v) × (v < (t.r (at + 1)).minv))

-- The slot that `lrcu_rangetree_squeeze` chooses.
abbrev pub chosen : RangeTree → ℕ
chosen t = squeeze_loop t.r (t.len - 2) u64_max (t.len - 2)

module _ (t : RangeTree) (h : IsTree t) (sorted : t.sorted ≡ true) (some_pair : 1 < t.len) where
  chosen-lt : chosen t + 1 < t.len
  chosen-lt = omega (
    arith,
    squeeze_loop-le t.r (t.len - 2) u64_max (t.len - 2) (t.len - 2) (omega arith) (omega arith),
  )

  -- On a sorted tree of two or more ranges in use that fill the array, the squeeze reads the slot
  -- behind the array.
  pub squeeze-full : t.len ≡ t.capacity → squeeze t ≡ undefined
  unfolding squeeze move_down
  squeeze-full full =
      let c = chosen-lt in
      rw (
        sorted,
        lt→ltb 1 t.len some_pair,
        le→ltb (chosen t + 1 + (t.len - chosen t - 1)) t.capacity (omega arith),
      )

  abbrev squeezed_tree : RangeTree
  squeezed_tree = record t { r = squeezed t.r (chosen t) t.len; len = t.len - 1 }

  squeeze-runs : t.len < t.capacity → squeeze t ≡ ok squeezed_tree
  unfolding squeeze move_down
  squeeze-runs room =
      let c = chosen-lt in
      rw (
        sorted,
        lt→ltb 1 t.len some_pair,
        lt→ltb (chosen t + 1 + (t.len - chosen t - 1)) t.capacity (omega arith),
      )

  after-minv : (i : ℕ) → i < t.len - 1 → (squeezed_tree.r i).minv ≢ empty_value
  after-minv i p = ground (
    arith,
    All-slice IsUsed t.r 0 t.len h.used_all i (omega arith) (omega arith),
    All-slice IsUsed t.r 0 t.len h.used_all (i + 1) (omega arith) (omega arith),
  )

  squeezed_tree-Squeezed : IsDisjoint (live t) → Squeezed t (chosen t) squeezed_tree
  squeezed_tree-Squeezed d =
      let a = Disjoint-Apart t.r 0 t.len 0 d in
      let d' =
        Apart-Disjoint squeezed_tree.r 0 (t.len - 1) 0
          (after-Apart t.r (chosen t) t.len chosen-lt a) (λ p. omega arith) in
      record {
        tree = record {
          fits = omega (arith, h.fits);
          used_all = slice-All IsUsed squeezed_tree.r 0 (t.len - 1) (λ k p q. (
            after-minv k (omega arith),
            (after-Apart t.r (chosen t) t.len chosen-lt a).proper k p q,
          ));
          ordered = λ _. Disjoint-Ascends 0 (live squeezed_tree) d';
        };
        is_sorted = sorted;
        disjoint = d';
        len_eq = omega arith;
        same_capacity = refl;
        keeps = covers-after t.r (chosen t) t.len chosen-lt a;
        adds_gap = covers-only t.r (chosen t) t.len chosen-lt a;
      }

  -- On a sorted tree of two or more disjoint ranges, whose array has a slot to spare, the squeeze
  -- ends normally with one range less. It forgets no version, and adds only versions in the gap
  -- behind the slot that it chooses; the ranges are still disjoint.
  pub squeeze-Squeezed :
      IsDisjoint (live t)
      → t.len < t.capacity
      → (t' : RangeTree) × (squeeze t ≡ ok t') × Squeezed t (chosen t) t'
  squeeze-Squeezed d room = (squeezed_tree, squeeze-runs room, squeezed_tree-Squeezed d)

  gap-exact :
      IsDisjoint (live t)
      → (i : ℕ) → i + 1 < t.len
      → (t.r (i + 1)).minv < u64_mod
      → (gap t.r i ≡ (t.r (i + 1)).minv - (t.r i).maxv) × (0 < gap t.r i)
  unfolding sub64
  gap-exact d i p fits =
      let lt =
        (Disjoint-Apart t.r 0 t.len 0 d).apart i (i + 1) (omega arith) (omega arith)
          (omega arith) in
      (omega arith, omega arith)

  -- On a sorted tree of three or more disjoint ranges whose lower ends are `u64`, the slot chosen is
  -- never 0, so that the first two ranges are not joined, whatever the gap between them; and no gap
  -- between two other neighbours is less than the gap chosen.
  pub chosen-least :
      2 < t.len
      → IsDisjoint (live t)
      → ((i : ℕ) → i < t.len → (t.r i).minv < u64_mod)
      → (i : ℕ) → 0 < i
      → i + 1 < t.len
      → (0 < chosen t)
        × ((t.r (chosen t + 1)).minv - (t.r (chosen t)).maxv ≤ (t.r (i + 1)).minv - (t.r i).maxv)
  chosen-least three d fits i p q =
      let least =
        squeeze_loop-least t.r (t.len - 2) u64_max (t.len - 2) (omega arith) (gap-le (t.len - 2))
          (λ i p q. (gap-exact d i (omega arith) (fits (i + 1) (omega arith))).1) in
      (
        squeeze_loop-pos t.r (t.len - 2) u64_max (t.len - 2) (omega arith),
        omega (
          arith,
          least.1 i p (omega arith),
          (gap-exact d i q (fits (i + 1) q)).0,
          (gap-exact d (chosen t) chosen-lt (fits (chosen t + 1) chosen-lt)).0,
        ),
      )
    where
      gap-le : (i : ℕ) → gap t.r i ≤ u64_max
      gap-le i = unfold sub64 in omega arith
