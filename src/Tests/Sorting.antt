-- ===== src/Tests/Sorting.antt =====
-- A `qsort` for the tests: insertion sort, with the laws of `Qsort`.
use mathlib.Core.List.{Perm}
use mathlib.Core.List.Perm
use light_rcu.Prelude.{
  ◌≡◌, ◌≢◌, refl, subst, Bool, true, false, if◌then◌else◌, List, [], ◌∷◌, Bool-cases, inl, inr,
}
use light_rcu.Qsort.{Cmp, less, same, more, IsConsistent, Ascending, Qsort}

unfoldable pub is_more : Cmp → Bool
is_more less = false
is_more same = false
is_more more = true

is_more-more : (c : Cmp) → is_more c ≡ true → c ≡ more
unfolding is_more
is_more-more less h = cc
is_more-more same h = cc
is_more-more more h = refl

is_more-not : (c : Cmp) → is_more c ≡ false → c ≢ more
unfolding is_more
is_more-not c h e = let k : is_more more ≡ false = subst (λ x. is_more x ≡ false) e h in cc

module _ {A : Type 0} (cmp : A → A → Cmp) where
  unfoldable pub insert : A → List A → List A
  insert x [] = x ∷ []
  insert x (y ∷ ys) = let rest = insert x ys in if is_more (cmp x y) then y ∷ rest else x ∷ y ∷ ys

  unfoldable pub insertion_sort : List A → List A
  insertion_sort [] = []
  insertion_sort (x ∷ xs) = insert x (insertion_sort xs)

  insert-perm : (x : A) (ys : List A) → Perm (insert x ys) (x ∷ ys)
  unfolding insert
  insert-perm x [] = Perm.refl (x ∷ [])
  insert-perm x (y ∷ ys) = elim (Bool-cases (is_more (cmp x y))) [
    | inl after ↦ rw after (Perm.trans (Perm.cons y (insert-perm x ys)) (Perm.swap x y ys))
    | inr before ↦ rw before (Perm.refl (x ∷ y ∷ ys))
  ]

  pub insertion_sort-perm : (xs : List A) → Perm (insertion_sort xs) xs
  unfolding insertion_sort
  insertion_sort-perm [] = Perm.refl []
  insertion_sort-perm (x ∷ xs) =
      Perm.trans (insert-perm x (insertion_sort xs)) (Perm.cons x (insertion_sort-perm xs))

  module _ (c : IsConsistent cmp) where
    follows : (x y : A) → cmp x y ≡ more → cmp y x ≢ more
    follows x y h e = let k = c.flips x y h in cc

    insert-Ascending-cons :
        (y x : A) (ys : List A)
        → cmp y x ≢ more
        → Ascending cmp (y ∷ ys)
        → Ascending cmp (y ∷ insert x ys)
    unfolding insert
    insert-Ascending-cons y x [] h a = (h, tt)
    insert-Ascending-cons y x (z ∷ zs) h a = elim (Bool-cases (is_more (cmp x z))) [
      | inl after ↦
          rw after
            (a.0, insert-Ascending-cons z x zs (follows x z (is_more-more (cmp x z) after)) a.1)
      | inr before ↦ rw before (h, (is_more-not (cmp x z) before, a.1))
    ]

    insert-Ascending : (x : A) (ys : List A) → Ascending cmp ys → Ascending cmp (insert x ys)
    unfolding insert
    insert-Ascending x [] a = tt
    insert-Ascending x (y ∷ ys) a = elim (Bool-cases (is_more (cmp x y))) [
      | inl after ↦
          rw after (insert-Ascending-cons y x ys (follows x y (is_more-more (cmp x y) after)) a)
      | inr before ↦ rw before (is_more-not (cmp x y) before, a)
    ]

    pub insertion_sort-Ascending : (xs : List A) → Ascending cmp (insertion_sort xs)
    unfolding insertion_sort
    insertion_sort-Ascending [] = tt
    insertion_sort-Ascending (x ∷ xs) =
        insert-Ascending x (insertion_sort xs) (insertion_sort-Ascending xs)

abbrev pub insertion : {A : Type 0} → Qsort A
insertion = record {
  sort = insertion_sort;
  sort-perm = insertion_sort-perm;
  sort-Ascending = insertion_sort-Ascending;
}
