-- ===== src/Range/Search.antt =====
-- `lrcu_rangetree_find`: the binary search, and the versions that the tree covers.
use light_rcu.Prelude.{
  ℕ, zero, suc, ◌+◌, ◌-◌, ◌/◌, ◌≤◌, ◌<◌, ◌≡◌, sym, ap, true, false, Option, none, some, ◌==◌,
  Bool-cases, inl, inr, arith, Run, ok, assert_failed, undefined, out_of_fuel, ltb, ltb→lt, ltb→le,
  ==→ne, if◌then◌else◌, Returns, ◌>>=◌,
}
use light_rcu.Range.{Slots, RangeTree, slice, live, search_loop, range_search, find}
use light_rcu.Range.Spec.{contains, covers, IsDisjoint}
use light_rcu.Range.Slices.{Apart, Disjoint-Apart, covers-none, covers-some}

-- What the search answers about the slots below `len`.
abbrev Answers : Slots → ℕ → ℕ → Option ℕ → Type 0
Answers r len v none = (k : ℕ) → k < len → contains (r k) v ≡ false
Answers r len v (some m) = (m < len) × (contains (r m) v ≡ true)

abbrev middle : ℕ → ℕ → ℕ
middle low bound = (low + bound - 1) / 2

-- One round, by the sign of the comparison.
module _ (fuel capacity : ℕ) (r : Slots) (v low bound : ℕ) (m : middle low bound < capacity) where
  search_loop-less :
      v < (r (middle low bound)).minv
      → search_loop (suc fuel) capacity r v low bound ≡ (
          if ltb low (middle low bound)
          then search_loop fuel capacity r v low (middle low bound)
          else ok none)
  unfolding search_loop
  search_loop-less h = ground arith

  search_loop-more :
      (r (middle low bound)).minv ≤ v
      → (r (middle low bound)).maxv < v
      → search_loop (suc fuel) capacity r v low bound ≡ (
          if ltb (middle low bound + 1) bound
          then search_loop fuel capacity r v (middle low bound + 1) bound
          else ok none)
  unfolding search_loop
  search_loop-more h k = ground arith

  search_loop-same :
      (r (middle low bound)).minv ≤ v
      → v ≤ (r (middle low bound)).maxv
      → search_loop (suc fuel) capacity r v low bound ≡ ok (some (middle low bound))
  unfolding search_loop
  search_loop-same h k = ground arith

module _ (r : Slots) (len capacity v : ℕ) (fits : len ≤ capacity) (a : Apart r 0 len) where
  abbrev Below : ℕ → Type 0
  Below low = (k : ℕ) → k < low → (r k).maxv < v

  abbrev Above : ℕ → Type 0
  Above bound = (k : ℕ) → bound ≤ k → k < len → v < (r k).minv

  Above-mid : (m : ℕ) → m < len → v < (r m).minv → Above m
  Above-mid m l h k p q = elim (Bool-cases (m == k)) [
    | inl here ↦ ground arith
    | inr on ↦ omega (arith, a.apart m k, a.proper m, ==→ne m k on)
  ]

  Below-mid : (m : ℕ) → m < len → (r m).maxv < v → Below (m + 1)
  Below-mid m l h k p = elim (Bool-cases (m == k)) [
    | inl here ↦ ground arith
    | inr on ↦ omega (arith, a.apart k m, a.proper m, ==→ne m k on)
  ]

  nowhere : (low bound : ℕ) → bound ≤ low → Below low → Above bound → Answers r len v none
  nowhere low bound p below above k l = elim (Bool-cases (ltb k low)) [
    | inl left ↦ ground (arith, below k)
    | inr right ↦ ground (arith, above k)
  ]

  search_loop-Answers :
      (fuel low bound : ℕ)
      → bound < low + fuel
      → low < bound
      → bound ≤ len
      → Below low
      → Above bound
      → Returns (Answers r len v) (search_loop fuel capacity r v low bound)
  search_loop-Answers zero low bound f p b below above = absurd (omega arith)
  search_loop-Answers (suc fuel) low bound f p b below above =
      let m : ℕ = middle low bound in
      let in_len : m < len = omega arith in
      let in_cap : m < capacity = omega arith in
      elim (Bool-cases (ltb v (r m).minv)) [
        | inl less_v ↦
            let beyond = Above-mid m in_len (ltb→lt v (r m).minv less_v) in
            rw (search_loop-less fuel capacity r v low bound in_cap (ltb→lt v (r m).minv less_v))
              (elim (Bool-cases (ltb low m)) [
                | inl go ↦ rw go (
                    search_loop-Answers fuel low m (omega arith) (ltb→lt low m go) (omega arith)
                      below beyond)
                | inr stop ↦ rw stop (nowhere low m (ltb→le low m stop) below beyond)
              ])
        | inr ge_min ↦ elim (Bool-cases (ltb (r m).maxv v)) [
          | inl more_v ↦
              let passed = Below-mid m in_len (ltb→lt (r m).maxv v more_v) in
              rw
                (search_loop-more fuel capacity r v low bound in_cap (ltb→le v (r m).minv ge_min)
                  (ltb→lt (r m).maxv v more_v))
                (elim (Bool-cases (ltb (m + 1) bound)) [
                  | inl go ↦ rw go (
                      search_loop-Answers fuel (m + 1) bound (omega arith) (ltb→lt (m + 1) bound go)
                        b passed above)
                  | inr stop ↦
                      rw stop (nowhere (m + 1) bound (ltb→le (m + 1) bound stop) passed above)
                ])
          | inr le_max ↦
              rw
                (search_loop-same fuel capacity r v low bound in_cap (ltb→le v (r m).minv ge_min)
                  (ltb→le (r m).maxv v le_max))
                (in_len, ground arith)
        ]
      ]

answer-covers :
    (r : Slots) (len v : ℕ) (out : Run (Option ℕ))
    → Returns (Answers r len v) out
    → (out >>= λ (i : Option ℕ). elim i [ none ↦ ok false | some _ ↦ ok true ])
      ≡ ok (covers (slice r 0 len) v)
answer-covers r len v (ok none) h = ap ok (sym (covers-none r v 0 len (λ k p q. h k (omega arith))))
answer-covers r len v (ok (some m)) h =
    ap ok (sym (covers-some r v 0 len m (omega arith) (omega arith) h.1))
answer-covers r len v assert_failed h = absurd h
answer-covers r len v undefined h = absurd h
answer-covers r len v out_of_fuel h = absurd h

-- On a tree of one or more ranges, which fit in the array and are disjoint and in order, the search
-- ends normally and answers whether one of the ranges contains the value.
pub find-covers :
    (t : RangeTree) (v : ℕ)
    → 0 < t.len
    → t.len ≤ t.capacity
    → IsDisjoint (live t)
    → find t v ≡ ok (covers (live t) v)
unfolding find range_search
find-covers t v some_range fits d =
    answer-covers t.r t.len v (search_loop (t.len + 1) t.capacity t.r v 0 t.len) (
      search_loop-Answers t.r t.len t.capacity v fits (Disjoint-Apart t.r 0 t.len 0 d) (t.len + 1) 0
        t.len (omega arith) some_range (omega arith) (λ k p. absurd (omega arith))
        (λ k p q. absurd (omega arith)))

-- On a tree without ranges, whose array is not empty, the search answers whether the range left in
-- slot 0 contains the value.
pub find-empty :
    (t : RangeTree) (v : ℕ) → t.len ≡ 0 → 0 < t.capacity → find t v ≡ ok (contains (t.r 0) v)
unfolding find range_search search_loop
find-empty t v e room = rw e (ground arith)
