-- ===== src/Range/Order.antt =====
-- The sort of a tree, and its comparison function `cmp_ranges`.
use light_rcu.Prelude.{
  ℕ, zero, suc, ◌+◌, ◌≤◌, ◌<◌, ◌≡◌, ◌≢◌, refl, sym, ◌∙◌, ap, subst, Bool, true, false, not, ◌&&◌,
  ◌||◌, List, [], ◌∷◌, ◌==◌, leb, update, Bool-cases, inl, inr, arith, length, All,
}
use light_rcu.Prelude.Perms.{perm-invariant, length-perm}
use mathlib.Core.Bool.{Bool-set}
use mathlib.Core.List.{Perm}
use light_rcu.Qsort.{same, more, Qsort, IsConsistent, Ascending}
use light_rcu.Range.{
  Range, Slots, RangeTree, empty_value, cmp_ranges, slice, write_slice, live, ensure_sorted,
}
use light_rcu.Range.Spec.{contains, covers, Ascends, IsProper}

-- The comparison function that the code gives to `qsort` is a total preorder.
pub cmp_ranges-IsConsistent : IsConsistent cmp_ranges
unfolding cmp_ranges
cmp_ranges-IsConsistent = record {
  flips = λ a b h. ground arith;
  chains = λ a b c p q. ground arith;
}

-- `cmp_ranges` is 0 only between equal ranges, and is less when the lower end is less.
pub cmp_ranges-same : (a b : Range) → cmp_ranges a b ≡ same → a ≡ b
unfolding cmp_ranges
cmp_ranges-same a b h = ground arith

minv-le : (a b : Range) → cmp_ranges a b ≢ more → a.minv ≤ b.minv
unfolding cmp_ranges
minv-le a b h = ground arith

pub Ascending-Ascends : (xs : List Range) → Ascending cmp_ranges xs → Ascends xs
Ascending-Ascends [] h = tt
Ascending-Ascends (x ∷ []) h = (omega arith, tt)
Ascending-Ascends (x ∷ y ∷ r) h =
    (omega arith, (minv-le x y h.0, (Ascending-Ascends (y ∷ r) h.1).1))

-- Slots below a written slice stay, and reading the slice back gives the list.
write_slice-below :
    (r : Slots) (i : ℕ) (xs : List Range) (q : ℕ) → q < i → write_slice r i xs q ≡ r q
write_slice-below r i [] q h = refl
write_slice-below r i (x ∷ xs) q h = ground (arith, write_slice-below (update r i x) (i + 1) xs q)

pub slice-write_slice :
    (r : Slots) (i : ℕ) (xs : List Range) → slice (write_slice r i xs) i (length xs) ≡ xs
slice-write_slice r i [] = refl
slice-write_slice r i (x ∷ xs) = ground (
  arith,
  write_slice-below (update r i x) (i + 1) xs i,
  slice-write_slice (update r i x) (i + 1) xs,
)

pub length-slice : (r : Slots) (i n : ℕ) → length (slice r i n) ≡ n
length-slice r i zero = refl
length-slice r i (suc n) = ap suc (length-slice r (i + 1) n)

covers-perm : (v : ℕ) {xs ys : List Range} → Perm xs ys → covers xs v ≡ covers ys v
covers-perm v =
    perm-invariant (λ xs. covers xs v) Bool-set (λ a xs ys e. ap (λ b. contains a v || b) e)
      (λ a b xs. ground arith)

-- A predicate given by a Boolean test holds of a list in any order.
abbrev pub every {ℓ} : {A : Type ℓ} → (A → Bool) → List A → Bool
every p [] = true
every p (x ∷ xs) = p x && every p xs

every-perm : (p : Range → Bool) {xs ys : List Range} → Perm xs ys → every p xs ≡ every p ys
every-perm p =
    perm-invariant (every p) Bool-set (λ a xs ys e. ap (λ b. p a && b) e) (λ a b xs. ground arith)

-- A range that `lrcu_rangetree_remove_overlapping` accepts, and that is not empty.
abbrev pub IsUsed : Range → Type 0
IsUsed x = (x.minv ≢ empty_value) × IsProper x

abbrev used : Range → Bool
used x = not (x.minv == empty_value) && leb x.minv x.maxv

every→All : (xs : List Range) → every used xs ≡ true → All IsUsed xs
every→All [] h = tt
every→All (x ∷ xs) h = (ground arith, every→All xs (ground arith))

All→every : (xs : List Range) → All IsUsed xs → every used xs ≡ true
All→every [] h = refl
All→every (x ∷ xs) h = ground (arith, All→every xs)

All-perm : {xs ys : List Range} → Perm xs ys → All IsUsed ys → All IsUsed xs
All-perm {xs} {ys} p h = every→All xs (every-perm used p ∙ All→every ys h)

-- The tree after the sort, if it was needed.
pub record Sorted (t t' : RangeTree) : Type 0 where
  pub is_sorted : t'.sorted ≡ true
  pub len_eq : t'.len ≡ t.len
  pub capacity_eq : t'.capacity ≡ t.capacity
  pub ascends : Ascends (live t')
  pub used_all : All IsUsed (live t')
  pub same_cover : (v : ℕ) → covers (live t') v ≡ covers (live t) v

module _ (q : Qsort Range) (t : RangeTree) where
  abbrev result : List Range
  result = q.sort cmp_ranges (live t)

  live-sorted : slice (write_slice t.r 0 result) 0 t.len ≡ result
  live-sorted =
      let n : length result ≡ t.len =
        length-perm (q.sort-perm cmp_ranges (live t)) ∙ length-slice t.r 0 t.len in
      subst (λ k. slice (write_slice t.r 0 result) 0 k ≡ result) n (slice-write_slice t.r 0 result)

  abbrev sorted_tree : RangeTree
  sorted_tree = record t { sorted = true; r = write_slice t.r 0 result }

  pub ensure_sorted-sorted : t.sorted ≡ true → ensure_sorted q t ≡ t
  unfolding ensure_sorted
  ensure_sorted-sorted h = ground arith

  ensure_sorted-unsorted : t.sorted ≡ false → ensure_sorted q t ≡ sorted_tree
  unfolding ensure_sorted
  ensure_sorted-unsorted h = ground arith

  pub ensure_sorted-Sorted :
      (t.sorted ≡ true → Ascends (live t)) → All IsUsed (live t) → Sorted t (ensure_sorted q t)
  ensure_sorted-Sorted ordered u = elim (Bool-cases t.sorted) [
    | inl h ↦ subst (Sorted t) (sym (ensure_sorted-sorted h)) (record {
      is_sorted = h;
      len_eq = refl;
      capacity_eq = refl;
      ascends = ordered h;
      used_all = u;
      same_cover = λ v. refl;
    })
    | inr h ↦ subst (Sorted t) (sym (ensure_sorted-unsorted h)) (record {
      is_sorted = refl;
      len_eq = refl;
      capacity_eq = refl;
      ascends =
          rw live-sorted (
            Ascending-Ascends result
              (q.sort-Ascending cmp_ranges cmp_ranges-IsConsistent (live t)));
      used_all = rw live-sorted (All-perm (q.sort-perm cmp_ranges (live t)) u);
      same_cover = λ v. rw live-sorted (covers-perm v (q.sort-perm cmp_ranges (live t)));
    })
  ]
