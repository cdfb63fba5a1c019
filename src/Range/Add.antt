-- ===== src/Range/Add.antt =====
-- `lrcu_rangetree_add`, on every branch.
use light_rcu.Prelude.{
  ℕ, zero, suc, ◌+◌, ◌≤◌, ◌<◌, ◌≡◌, refl, ◌∙◌, ap, Bool, true, false, ◌==◌, ◌||◌, Bool-cases, inl,
  inr, arith, Run, ok, ltb, ltb→lt, ltb→le, lt→ltb, le→ltb, le→leb, update, undefined,
}
use light_rcu.Qsort.{Qsort}
use light_rcu.Range.{
  Range, range, Slots, RangeTree, slice, live, optimize, optlevel_merge, optlevel_squeeze,
  optlevel_max, add_retry, add, squeeze,
}
use light_rcu.Range.Spec.{contains, covers}
use light_rcu.Range.Slices.{slice-eq, All-slice, slice-All}
use light_rcu.Range.Order.{IsUsed, ensure_sorted-sorted}
use light_rcu.Range.Merge.{IsTree, Merged, optimize-merge}
use light_rcu.Range.Squeeze.{squeeze-full}

covers-slice-suc :
    (r : Slots) (i n v : ℕ)
    → covers (slice r i (suc n)) v ≡ (covers (slice r i n) v || contains (r (i + n)) v)
covers-slice-suc r i zero v = let e : i + 0 ≡ i = omega arith in rw e (ground arith)
covers-slice-suc r i (suc n) v =
    let e : i + suc n ≡ i + 1 + n = omega arith in
    rw e (ground (arith, covers-slice-suc r (i + 1) n v))

abbrev pub appended : RangeTree → ℕ → ℕ → RangeTree
appended t a b = record t { r = update t.r t.len (range a b); len = t.len + 1; sorted = false }

-- The tree covers what it covered, and the new range.
pub record Added (t : RangeTree) (a b : ℕ) (t' : RangeTree) : Type 0 where
  pub tree : IsTree t'
  pub not_empty : 0 < t'.len
  pub same_capacity : t'.capacity ≡ t.capacity
  pub same_cover : (v : ℕ) → covers (live t') v ≡ (covers (live t) v || contains (range a b) v)

appended-Added :
    (t : RangeTree) (a b : ℕ)
    → IsTree t
    → IsUsed (range a b)
    → t.len < t.capacity
    → Added t a b (appended t a b)
appended-Added t a b h u room = record {
  tree = record {
    fits = omega arith;
    used_all = slice-All IsUsed (update t.r t.len (range a b)) 0 (t.len + 1) (λ k p q.
        elim (Bool-cases (k == t.len)) [
          | inl here ↦ rw here u
          | inr on ↦ rw on (All-slice IsUsed t.r 0 t.len h.used_all k p (ground arith))
        ]);
    ordered = λ e. cc;
  };
  not_empty = omega arith;
  same_capacity = refl;
  same_cover = λ v.
      let e : t.len + 1 ≡ suc t.len = omega arith in
      let s = update t.r t.len (range a b) in
      let z : 0 + t.len ≡ t.len = omega arith in
      ap (λ (n : ℕ). covers (slice s 0 n) v) e
      ∙ covers-slice-suc s 0 t.len v
      ∙ ground (arith, ap (λ xs. covers xs v) (slice-eq s t.r 0 t.len (λ k p q. ground arith)));
}

module _ (q : Qsort Range) (t : RangeTree) (a b : ℕ) where
  add_retry-room :
      (fuel level : ℕ)
      → t.len < t.capacity
      → add_retry q (suc fuel) t a b level ≡ ok (appended t a b)
  unfolding add_retry
  add_retry-room fuel level room = rw (lt→ltb t.len t.capacity room, add_retry)

  add_retry-full :
      (fuel level : ℕ) {t' : RangeTree} {c : Bool}
      → t.capacity ≤ t.len
      → level ≤ optlevel_max
      → optimize q t level ≡ ok (t', c)
      → add_retry q (suc fuel) t a b level ≡ add_retry q fuel t' a b (level + 1)
  unfolding add_retry
  add_retry-full fuel level full l e =
      rw (le→ltb t.len t.capacity full, add_retry) (rw (le→leb level optlevel_max l, e))

  add_retry-out :
      (fuel level : ℕ)
      → t.capacity ≤ t.len
      → level ≤ optlevel_max
      → optimize q t level ≡ undefined
      → add_retry q (suc fuel) t a b level ≡ undefined
  unfolding add_retry
  add_retry-out fuel level full l e =
      rw (le→ltb t.len t.capacity full, add_retry) (rw (le→leb level optlevel_max l, e))

  -- At the squeeze level a sorted tree goes to `lrcu_rangetree_squeeze` as it is.
  optimize-squeeze :
      t.sorted ≡ true → squeeze t ≡ undefined → optimize q t optlevel_squeeze ≡ undefined
  unfolding optimize
  optimize-squeeze sorted e = rw (ensure_sorted-sorted q t sorted, e)

-- The outcome of an addition: the range is added, or the array stays full after merging, and then
-- the squeeze reads outside it.
pub data Outcome (t : RangeTree) (a b : ℕ) (run : Run RangeTree) : Type 0 where
  added : (t' : RangeTree) → run ≡ ok t' → Added t a b t' → Outcome t a b run
  overrun :
      t.len ≡ t.capacity
      → (t1 : RangeTree) → Merged t t1
      → t1.len ≡ t.capacity
      → run ≡ undefined
      → Outcome t a b run

module _ (q : Qsort Range) (t : RangeTree) (a b : ℕ) (h : IsTree t) (u : IsUsed (range a b)) where
  -- With room the range goes behind the others.
  pub add-room :
      t.len < t.capacity → (add q t a b ≡ ok (appended t a b)) × Added t a b (appended t a b)
  unfolding add
  add-room room = (add_retry-room q t a b 2 optlevel_merge room, appended-Added t a b h u room)

  add-Merged :
      {t1 : RangeTree} {c : Bool}
      → t.capacity ≤ t.len
      → 1 < t.capacity
      → optimize q t optlevel_merge ≡ ok (t1, c)
      → Merged t t1
      → Outcome t a b (add q t a b)
  unfolding add
  add-Merged {t1} full two e m =
      let on = add_retry-full q t a b 2 optlevel_merge full (omega arith) e in
      elim (Bool-cases (ltb t1.len t1.capacity)) [
        | inl room ↦
            let r = ltb→lt t1.len t1.capacity room in
            let d = appended-Added t1 a b m.tree u r in
            added (appended t1 a b) (on ∙ add_retry-room q t1 a b 1 (optlevel_merge + 1) r)
              (record {
                tree = d.tree;
                not_empty = d.not_empty;
                same_capacity = d.same_capacity ∙ m.same_capacity;
                same_cover =
                    λ v. d.same_cover v ∙ ap (λ x. x || contains (range a b) v) (m.same_cover v);
              })
        | inr no_room ↦
            let ge = ltb→le t1.len t1.capacity no_room in
            let l : t1.len ≡ t1.capacity = omega (arith, m.tree.fits) in
            overrun (omega (arith, h.fits)) t1 m (l ∙ m.same_capacity) (
              on
              ∙ add_retry-out q t1 a b 1 (optlevel_merge + 1) ge (omega arith) (
                  optimize-squeeze q t1 a b m.is_sorted
                    (squeeze-full t1 m.tree m.is_sorted (omega (arith, m.same_capacity)) l)))
      ]

  -- On a tree with two slots or more, whose ranges are in use, the addition of a range that is not
  -- empty either succeeds, and the tree then covers exactly what it covered and the new range, or
  -- finds the array still full after merging, and then reads outside the array.
  pub add-Outcome : 1 < t.capacity → Outcome t a b (add q t a b)
  add-Outcome two = elim (Bool-cases (ltb t.len t.capacity)) [
    | inl room ↦ let (e, d) = add-room (ltb→lt t.len t.capacity room) in added (appended t a b) e d
    | inr full ↦
        let (t1, e, m) = optimize-merge q t h in add-Merged (ltb→le t.len t.capacity full) two e m
  ]
