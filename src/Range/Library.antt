-- ===== src/Range/Library.antt =====
-- src/range.c: the allocation of a tree, and `lrcu_rangetree_find` as it is where
-- `BINTREE_SEARCH_SELF_IMPLEMENTED` is not defined, with the C library's search.
use light_rcu.Prelude.{
  ℕ, ◌≤◌, ◌≡◌, refl, sym, ap, Bool, true, false, Bool-cases, inl, inr, Option, none, some, ltb, leb,
  le→leb, ◌==◌, if◌then◌else◌, update, Run, ok, undefined, arith,
}
use light_rcu.Prelude.Commands.{Command, pure, ◌>>=◌, ◌>>◌, deref, read}
use light_rcu.Qsort.{Cmp, less, same, more}
use light_rcu.Bsearch.{IsPartitioned, Bsearch}
use light_rcu.Range.{Range, range, Slots, RangeTree, live}
use light_rcu.Range.Spec.{contains, covers, IsDisjoint}
use light_rcu.Range.Slices.{Apart, Disjoint-Apart, covers-none, covers-some}

-- The trees that are allocated.
abbrev pub Trees : Type 0
Trees = ℕ → Option RangeTree

abbrev set_tree : ℕ → Option RangeTree → Command Trees (Unit {0})
set_tree p t trees = ok (tt, update trees p t)

-- `lrcu_rangetree_init`, with what `LRCU_CALLOC` returns. The ranges stand behind the structure, and are
-- zero, as is `sorted`.
unfoldable pub rangetree_init : Option ℕ → ℕ → Command Trees ℕ
rangetree_init none capacity = pure 0
rangetree_init (some p) capacity = do
  set_tree p (some (record { len = 0; capacity = capacity; sorted = false; r = λ i. range 0 0 }))
  pure p

-- `lrcu_rangetree_deinit`, whose argument may be null.
unfoldable pub rangetree_deinit : ℕ → Command Trees (Unit {0})
rangetree_deinit p =
    if p == 0 then pure tt else do t ← read (λ trees. trees p); t' ← deref t; set_tree p none

-- `bintree_range_value_cmp2`: a key, whose `minv` is the value, and a range.
unfoldable pub value_cmp2 : Range → Range → Cmp
value_cmp2 v r = if ltb v.minv r.minv then less else if ltb r.maxv v.minv then more else same

module _ (b : Bsearch Range) where
  abbrev is_hit : Option ℕ → Bool
  is_hit none = false
  is_hit (some i) = true

  -- `lrcu_rangetree_find`
  unfoldable pub library_find : RangeTree → ℕ → Run Bool
  unfolding value_cmp2
  library_find t value =
      if leb t.len t.capacity
      then ok (is_hit (b.search value_cmp2 (range value 0) t.r t.len))
      else undefined

value_cmp2-contains : (v : ℕ) (x : Range) → value_cmp2 (range v 0) x ≡ same → contains x v ≡ true
unfolding value_cmp2
value_cmp2-contains v x h = ground arith

contains-value_cmp2 : (v : ℕ) (x : Range) → contains x v ≡ true → value_cmp2 (range v 0) x ≡ same
unfolding value_cmp2
contains-value_cmp2 v x h = ground arith

-- Disjoint ranges in order are as `bsearch` wants its array.
Apart-IsPartitioned :
    (r : Slots) (len v : ℕ) → Apart r 0 len → IsPartitioned value_cmp2 (range v 0) r len
unfolding value_cmp2
Apart-IsPartitioned r len v a i j below fits =
    let x = a.apart i j (omega arith) below (omega arith) in
    let p = a.proper i (omega arith) (omega arith) in
    let q = a.proper j (omega arith) (omega arith) in (λ h. ground arith, λ h. ground arith)

answer_lem :
    (b : Bsearch Range) (t : RangeTree) (v : ℕ) (out : Option ℕ)
    → Apart t.r 0 t.len
    → b.search value_cmp2 (range v 0) t.r t.len ≡ out
    → is_hit b out ≡ covers (live t) v
answer_lem b t v none a e =
    let p = Apart-IsPartitioned t.r t.len v a in
    sym (
      covers-none t.r v 0 t.len (λ k l u. elim (Bool-cases (contains (t.r k) v)) [
        | inl hit ↦ absurd (
            b.search-none value_cmp2 (range v 0) t.r t.len p e k (omega arith)
              (contains-value_cmp2 v (t.r k) hit))
        | inr miss ↦ miss
      ]))
answer_lem b t v (some i) a e =
    let p = Apart-IsPartitioned t.r t.len v a in
    let (fits, hit) = b.search-some value_cmp2 (range v 0) t.r t.len i p e in
    sym
      (covers-some t.r v 0 t.len i (omega arith) (omega arith) (value_cmp2-contains v (t.r i) hit))

-- In a build without `BINTREE_SEARCH_SELF_IMPLEMENTED`, which src/range.h defines as it stands: on a tree
-- whose ranges fit in the array and are disjoint and in order, one without ranges included, the search
-- that calls `bsearch` ends normally and answers whether one of the ranges contains the value.
pub library_find-covers :
    (b : Bsearch Range) (t : RangeTree) (v : ℕ)
    → t.len ≤ t.capacity
    → IsDisjoint (live t)
    → library_find b t v ≡ ok (covers (live t) v)
unfolding library_find
library_find-covers b t v fits d = rw (le→leb t.len t.capacity fits) (
    ap ok (
      answer_lem b t v (b.search value_cmp2 (range v 0) t.r t.len) (Disjoint-Apart t.r 0 t.len 0 d)
        refl))
