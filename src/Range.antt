-- ===== src/Range.antt =====
-- src/range.c and src/range.h: an array of ranges of versions. The array is a function from index
-- to slot, the slots past `len` included, since the C code keeps and may read what is left in them.
-- A `u64` is a number below 2 ^ 64; an index (`size_t`, `ssize_t`) is a plain number.
pub mod Spec
pub mod Slices
pub mod Overlap
pub mod Order
pub mod Merge
pub mod Gaps
pub mod Squeeze
pub mod Search
pub mod Add
pub mod Library
use light_rcu.Prelude.{
  ℕ, zero, suc, ◌+◌, ◌-◌, ◌/◌, ◌%◌, ◌^◌, Bool, true, false, not, ◌&&◌, Option, none, some, List, [],
  ◌∷◌, ltb, leb, ◌==◌, if◌then◌else◌, update, Run, ok, undefined, out_of_fuel, ◌>>=◌, ◌>>◌, assert,
}
use light_rcu.Qsort.{Cmp, less, same, more, Qsort}

abbrev pub u64_mod : ℕ
u64_mod = 2 ^ 64

-- `lrcu_range_t`
pub record Range : Type 0 where
  pub minv : ℕ
  pub maxv : ℕ

abbrev pub range : ℕ → ℕ → Range
range a b = record { minv = a; maxv = b }

abbrev pub Slots : Type 0
Slots = ℕ → Range

-- `lrcu_rangetree_t`
pub record RangeTree : Type 0 where
  pub len : ℕ
  pub capacity : ℕ
  pub sorted : Bool
  pub r : Slots

-- `RANGE_BINTREE_OPTLEVEL_MERGE`, `_SQUEEZE` and `_MAX`
abbrev pub optlevel_merge : ℕ
optlevel_merge = 0

abbrev pub optlevel_squeeze : ℕ
optlevel_squeeze = 1

abbrev pub optlevel_max : ℕ
optlevel_max = 1

-- `(u64)-1`
abbrev pub u64_max : ℕ
u64_max = 0xFFFF_FFFF_FFFF_FFFF

-- `RANGE_BINTREE_EMPTY_VALUE`
abbrev pub empty_value : ℕ
empty_value = 0xFFFF_FFFF_FFFF_FFFF

-- `RANGE_BINTREE_INIT`: the array keeps its contents.
unfoldable pub tree_init : Slots → ℕ → RangeTree
tree_init ranges cap = record { len = 0; capacity = cap; sorted = false; r = ranges }

unfoldable pub cmp_ranges : Range → Range → Cmp
cmp_ranges r1 r2 =
    if ltb r2.minv r1.minv
    then more
    else if ltb r1.minv r2.minv
    then less
    else if r1.maxv == r2.maxv
    then same
    else if ltb r2.maxv r1.maxv
    then more
    else less

-- The ranges at `n` indices from `i` on, and the write of a list of ranges from `i` on.
abbrev pub slice : Slots → ℕ → ℕ → List Range
slice r i zero = []
slice r i (suc n) = r i ∷ slice r (i + 1) n

abbrev pub write_slice : Slots → ℕ → List Range → Slots
write_slice r i [] = r
write_slice r i (x ∷ xs) = write_slice (update r i x) (i + 1) xs

-- The ranges that are in use.
abbrev pub live : RangeTree → List Range
live t = slice t.r 0 t.len

-- The inner loop of `lrcu_rangetree_remove_overlapping`, from `j`, with `n` rounds left: where it
-- stops, and `end_of_segment` there.
unfoldable pub overlap_loop : Slots → ℕ → ℕ → ℕ → ℕ × ℕ
overlap_loop r zero j end_of_segment = (j, end_of_segment)
overlap_loop r (suc n) j end_of_segment =
    let next_end = if ltb end_of_segment (r j).maxv then (r j).maxv else end_of_segment in
    let rest = overlap_loop r n (j + 1) next_end in
    if ltb end_of_segment (r j).minv then (j, end_of_segment) else rest

-- The body of the outer loop: the array, and the `j` at which the inner loop stopped.
unfoldable pub overlap_body : Slots → ℕ → ℕ → ℕ → ℕ → Slots × ℕ
unfolding overlap_loop
overlap_body r len i real_index real_offset =
    let (j, end_of_segment) = overlap_loop r (len - (i + 1)) (i + 1) (r i).maxv in
    let r' = update r i (range (r i).minv end_of_segment) in
    (if real_offset == 0 then r' else update r' real_index (r' i), j)

-- The outer loop: `i = j - 1` and then `i++`, so that the next round is at `j`.
unfoldable pub overlap_rounds : ℕ → Slots → ℕ → ℕ → ℕ → ℕ → Run (Slots × ℕ)
overlap_rounds zero r len i real_index real_offset = out_of_fuel
overlap_rounds (suc fuel) r len i real_index real_offset =
    let (r', j) = overlap_body r len i real_index real_offset in
    let rest = overlap_rounds fuel r' len j (real_index + 1) (real_offset + (j - 1 - i)) in
    if ltb i len then assert (not ((r i).minv == empty_value)) >> rest else ok (r, real_index)

-- `lrcu_rangetree_remove_overlapping`
unfoldable pub remove_overlapping : RangeTree → Run RangeTree
unfolding overlap_rounds
remove_overlapping t = do
  assert t.sorted
  (r, real_index) ← overlap_rounds (t.len + 1) t.r t.len 0 0 0
  ok (record t { r = r; len = real_index })

-- `u64` subtraction
unfoldable pub sub64 : ℕ → ℕ → ℕ
sub64 a b = (a + u64_mod - b) % u64_mod

-- The loop of `lrcu_rangetree_squeeze`, from `i` down; it leaves at `i == 0` without looking.
unfoldable pub squeeze_loop : Slots → ℕ → ℕ → ℕ → ℕ
unfolding sub64
squeeze_loop r zero delta_min index_squeeze = index_squeeze
squeeze_loop r (suc i) delta_min index_squeeze =
    let v_delta = sub64 (r (suc i + 1)).minv (r (suc i)).maxv in
    let closer = ltb v_delta delta_min in
    let rest =
      squeeze_loop r i (if closer then v_delta else delta_min)
        (if closer then suc i else index_squeeze) in
    if v_delta == 1 then suc i else rest

-- `memmove(r + dst, r + dst + 1, n * sizeof *r)`: it reads the slots up to `dst + n`.
unfoldable pub move_down : ℕ → Slots → ℕ → ℕ → Run Slots
move_down capacity r dst n =
    if ltb (dst + n) capacity
    then ok (λ i. if leb dst i && ltb i (dst + n) then r (i + 1) else r i)
    else undefined

-- `lrcu_rangetree_squeeze`
unfoldable pub squeeze : RangeTree → Run RangeTree
unfolding squeeze_loop move_down
squeeze t = do
  assert t.sorted
  assert (ltb 1 t.len)
  let k = squeeze_loop t.r (t.len - 2) u64_max (t.len - 2)
  r ←
      move_down t.capacity (update t.r k (range (t.r k).minv (t.r (k + 1)).maxv)) (k + 1)
        (t.len - k - 1)
  ok (record t { r = r; len = t.len - 1 })

module _ (q : Qsort Range) where
  -- `if(!rbt->sorted){ LRCU_QSORT(…); rbt->sorted = true; }`
  unfoldable pub ensure_sorted : RangeTree → RangeTree
  unfolding cmp_ranges
  ensure_sorted t =
      if t.sorted
      then t
      else record t { sorted = true; r = write_slice t.r 0 (q.sort cmp_ranges (live t)) }

  -- `lrcu_rangetree_optimize`
  unfoldable pub optimize : RangeTree → ℕ → Run (RangeTree × Bool)
  optimize t opt_level = do
    assert (leb opt_level optlevel_max)
    t1 ← if opt_level == optlevel_merge then remove_overlapping (ensure_sorted t) else ok t
    t2 ← if opt_level == optlevel_squeeze then squeeze (ensure_sorted t1) else ok t1
    ok (t2, not (t2.len == t2.capacity))

  -- The body of `lrcu_rangetree_add` from its label `retry` on.
  unfoldable pub add_retry : ℕ → RangeTree → ℕ → ℕ → ℕ → Run RangeTree
  add_retry zero t minv maxv opt_level = out_of_fuel
  add_retry (suc fuel) t minv maxv opt_level = elim (ltb t.len t.capacity) [
    | true ↦
        ok (record t { r = update t.r t.len (range minv maxv); len = t.len + 1; sorted = false })
    | false ↦ do
      assert (leb opt_level optlevel_max)
      (t', changed) ← optimize t opt_level
      add_retry fuel t' minv maxv (opt_level + 1)
  ]

  -- `lrcu_rangetree_add`. The third round has the level that fails the assertion.
  unfoldable pub add : RangeTree → ℕ → ℕ → Run RangeTree
  unfolding add_retry
  add t minv maxv = add_retry 3 t minv maxv optlevel_merge

-- `lrcu_rangetree_getmin`
unfoldable pub getmin : RangeTree → Run ℕ
getmin t = do
  assert t.sorted
  if not t.sorted then ok 0 else if t.len == 0 then ok 0 else ok (t.r 0).minv

-- `bintree_range_value_cmp`
unfoldable pub value_cmp : Range → ℕ → Cmp
value_cmp r value = if ltb value r.minv then less else if ltb r.maxv value then more else same

-- The loop of `bintree_range_search`. `bound` is the C code's `high + 1`, so that `-1` is 0:
-- `(low + high) / 2` truncates towards 0 in C and here, and `low <= high` is `low < bound`.
-- `none` is the result `-1`.
unfoldable pub search_loop : ℕ → ℕ → Slots → ℕ → ℕ → ℕ → Run (Option ℕ)
unfolding value_cmp
search_loop zero capacity r value low bound = out_of_fuel
search_loop (suc fuel) capacity r value low bound =
    let mid = (low + bound - 1) / 2 in
    let left = search_loop fuel capacity r value low mid in
    let right = search_loop fuel capacity r value (mid + 1) bound in
    if ltb mid capacity
    then elim (value_cmp (r mid) value) [
      | same ↦ ok (some mid)
      | less ↦ if ltb low mid then left else ok none
      | more ↦ if ltb (mid + 1) bound then right else ok none
    ]
    else undefined

-- `bintree_range_search`
unfoldable pub range_search : ℕ → Slots → ℕ → ℕ → Run (Option ℕ)
unfolding search_loop
range_search capacity r len value = search_loop (len + 1) capacity r value 0 len

-- `lrcu_rangetree_find`
unfoldable pub find : RangeTree → ℕ → Run Bool
find t value = do
  i ← range_search t.capacity t.r t.len value
  elim i [ none ↦ ok false | some _ ↦ ok true ]
