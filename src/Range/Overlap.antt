-- ===== src/Range/Overlap.antt =====
-- `lrcu_rangetree_remove_overlapping`, which works in place, and `merge` on lists.
use light_rcu.Prelude.{
  ℕ, zero, suc, ◌+◌, ◌-◌, ◌≤◌, ◌<◌, ◌≡◌, ◌≢◌, refl, sym, ◌∙◌, true, List, ◌∷◌, ltb, Run, ok,
  Bool-cases, ap₂, subst, inl, inr, arith, ap,
}
use light_rcu.Range.{
  Range, range, Slots, RangeTree, slice, live, empty_value, overlap_loop, overlap_body,
  overlap_rounds, remove_overlapping,
}
use light_rcu.Range.Spec.{larger, merge_from, merge_from-apart, merge_from-meet, merge}
use light_rcu.Range.Slices.{slice-eq}

-- The inner loop absorbs what `merge_from` absorbs; `k` ranges are left.
record Absorbs (r : Slots) (n j e m : ℕ) (out : ℕ × ℕ) : Type 0 where
  left : ℕ
  splits : out.0 + left ≡ j + n
  forward : j ≤ out.0
  merges : merge_from (range m e) (slice r j n) ≡ range m out.1 ∷ merge (slice r out.0 left)

overlap_loop-Absorbs : (r : Slots) (n j e m : ℕ) → Absorbs r n j e m (overlap_loop r n j e)
unfolding overlap_loop merge
overlap_loop-Absorbs r zero j e m = record {
  left = 0;
  splits = omega arith;
  forward = omega arith;
  merges = unfold merge_from in refl;
}
overlap_loop-Absorbs r (suc n) j e m = elim (Bool-cases (ltb e (r j).minv)) [
  | inl apart ↦ rw apart (record {
    left = suc n;
    splits = refl;
    forward = omega arith;
    merges = merge_from-apart (range m e) (r j) (slice r (j + 1) n) apart;
  })
  | inr meet ↦
      let rest = overlap_loop-Absorbs r n (j + 1) (larger e (r j).maxv) m in
      rw meet (record {
        left = rest.left;
        splits = omega (arith, rest.splits);
        forward = omega (arith, rest.forward);
        merges = merge_from-meet (range m e) (r j) (slice r (j + 1) n) meet ∙ rest.merges;
      })
]

-- One round of the outer loop, at `i` with `n` ranges behind it.
record Moves (r : Slots) (i n real_index : ℕ) (out : Slots × ℕ) : Type 0 where
  left : ℕ
  splits : out.1 + left ≡ i + 1 + n
  forward : i < out.1
  merges : merge (slice r i (suc n)) ≡ out.0 real_index ∷ merge (slice r out.1 left)
  before : (q : ℕ) → q < real_index → out.0 q ≡ r q
  behind : (q : ℕ) → i < q → out.0 q ≡ r q

overlap_body-Moves :
    (r : Slots) (len i n real_index real_offset : ℕ)
    → i + 1 + n ≡ len
    → real_index + real_offset ≡ i
    → Moves r i n real_index (overlap_body r len i real_index real_offset)
unfolding overlap_body merge
overlap_body-Moves r len i n real_index real_offset e offset =
    let k : len - (i + 1) ≡ n = omega arith in
    let inner = overlap_loop-Absorbs r n (i + 1) (r i).maxv (r i).minv in
    rw k (record {
      left = inner.left;
      splits = inner.splits;
      forward = omega (arith, inner.forward);
      merges = ground (arith, inner.merges);
      before = λ q h. ground arith;
      behind = λ q h. ground arith;
    })

-- The outer loop from `i`, with `n` ranges to go.
record Merges (r : Slots) (real_index : ℕ) (xs : List Range) (run : Run (Slots × ℕ)) : Type 0 where
  array : Slots
  count : ℕ
  stops : run ≡ ok (array, real_index + count)
  merged : slice array real_index count ≡ xs
  before : (q : ℕ) → q < real_index → array q ≡ r q

module _ (r : Slots) (len i real_index real_offset : ℕ) where
  abbrev round : Slots × ℕ
  round = overlap_body r len i real_index real_offset

  overlap_rounds-next :
      (fuel : ℕ)
      → i < len
      → (r i).minv ≢ empty_value
      → overlap_rounds (suc fuel) r len i real_index real_offset
        ≡ overlap_rounds fuel round.0 len round.1 (real_index + 1) (real_offset + (round.1 - 1 - i))
  unfolding overlap_rounds
  overlap_rounds-next fuel h used = ground arith

  overlap_rounds-end :
      (fuel : ℕ)
      → len ≤ i
      → overlap_rounds (suc fuel) r len i real_index real_offset ≡ ok (r, real_index)
  unfolding overlap_rounds
  overlap_rounds-end fuel h = ground arith

-- A round, and the rounds after it.
Merges-cons :
    {r : Slots} {i n real_index : ℕ} {out : Slots × ℕ} {run run' : Run (Slots × ℕ)}
    (m : Moves r i n real_index out)
    → Merges out.0 (real_index + 1) (merge (slice out.0 out.1 m.left)) run'
    → run ≡ run'
    → Merges r real_index (merge (slice r i (suc n))) run
Merges-cons {r} {real_index} {out} m rest e = record {
  array = rest.array;
  count = suc rest.count;
  stops = e ∙ rest.stops ∙ ap (λ k. ok (rest.array, k)) (omega arith);
  merged =
      ap₂ ◌∷◌ (rest.before real_index (omega arith)) (rest.merged ∙ ap merge same_tail)
      ∙ sym m.merges;
  before = λ q h. rest.before q (omega arith) ∙ m.before q h;
}
  where
    same_tail : slice out.0 out.1 m.left ≡ slice r out.1 m.left
    same_tail = slice-eq out.0 r out.1 m.left (λ k p q. m.behind k (omega (arith, m.forward)))

overlap_rounds-Merges :
    (fuel : ℕ) (r : Slots) (len i n real_index real_offset : ℕ)
    → n < fuel
    → i + n ≡ len
    → real_index + real_offset ≡ i
    → ((q : ℕ) → i ≤ q → q < len → (r q).minv ≢ empty_value)
    → Merges r real_index (merge (slice r i n)) (overlap_rounds fuel r len i real_index real_offset)
overlap_rounds-Merges zero r len i n real_index real_offset f e offset used = absurd (omega arith)
overlap_rounds-Merges (suc fuel) r len i zero real_index real_offset f e offset used = record {
  array = r;
  count = 0;
  stops =
      overlap_rounds-end r len i real_index real_offset fuel (omega arith)
      ∙ ap (λ k. ok (r, k)) (omega arith);
  merged = unfold merge in refl;
  before = λ q h. refl;
}
overlap_rounds-Merges (suc fuel) r len i (suc n) real_index real_offset f e offset used =
    let (r', j) = overlap_body r len i real_index real_offset in
    let m = overlap_body-Moves r len i n real_index real_offset (omega arith) offset in
    let rest =
      overlap_rounds-Merges fuel r' len j m.left (real_index + 1) (real_offset + (j - 1 - i))
        (omega (arith, m.splits, m.forward)) (omega (arith, m.splits)) (omega (arith, m.forward))
        (λ q h l.
          subst (λ (x : Range). x.minv ≢ empty_value) (sym (m.behind q (omega (arith, m.forward))))
            (used q (omega (arith, m.forward)) l)) in
    Merges-cons m rest (
      overlap_rounds-next r len i real_index real_offset fuel (omega arith)
        (used i (omega arith) (omega arith)))

-- On a sorted tree none of whose ranges has the empty value as its lower end,
-- `lrcu_rangetree_remove_overlapping` ends normally, and leaves at the front of the array the
-- ranges that `merge` makes of the old ones; the capacity stays, and so does the mark that the tree
-- is sorted.
pub remove_overlapping_lem :
    (t : RangeTree)
    → t.sorted ≡ true
    → ((q : ℕ) → q < t.len → (t.r q).minv ≢ empty_value)
    → (t' : RangeTree) × (remove_overlapping t ≡ ok t')
      × (live t' ≡ merge (live t))
      × (t'.sorted ≡ true)
      × (t'.capacity ≡ t.capacity)
unfolding remove_overlapping
remove_overlapping_lem t sorted used =
    let done =
      overlap_rounds-Merges (t.len + 1) t.r t.len 0 t.len 0 0 (omega arith) (omega arith)
        (omega arith) (λ q p. used q) in
    (
      record t { r = done.array; len = 0 + done.count },
      rw (sorted, done.stops) refl,
      (let z : 0 + done.count ≡ done.count = omega arith in rw z done.merged),
      sorted,
      refl,
    )
