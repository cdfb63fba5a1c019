-- ===== src/Qsort.antt =====
-- The C library's `qsort`, which range.c calls as `LRCU_QSORT` (include/lrcu/user.h). It is not part
-- of this repository: the development takes it as a value of `Qsort`, with what the C standard says.
use mathlib.Core.List.{Perm}
use light_rcu.Prelude.{◌≡◌, ◌≢◌, List, [], ◌∷◌}

-- The sign of the `int` that a comparison function returns.
pub data Cmp : Type 0 where
  less same more : Cmp

-- What `qsort` asks of its comparison function: a total preorder.
pub record IsConsistent {A : Type 0} (cmp : A → A → Cmp) : Type 0 where
  pub flips : (a b : A) → cmp a b ≡ more → cmp b a ≡ less
  pub chains : (a b c : A) → cmp a b ≢ more → cmp b c ≢ more → cmp a c ≢ more

abbrev pub Ascending : {A : Type 0} → (A → A → Cmp) → List A → Type 0
Ascending cmp [] = Unit
Ascending cmp (x ∷ []) = Unit
Ascending cmp (x ∷ y ∷ r) = (cmp x y ≢ more) × Ascending cmp (y ∷ r)

pub record Qsort (A : Type 0) : Type 0 where
  pub sort : (A → A → Cmp) → List A → List A
  pub sort-perm : (cmp : A → A → Cmp) (xs : List A) → Perm (sort cmp xs) xs
  pub sort-Ascending :
      (cmp : A → A → Cmp) → IsConsistent cmp → (xs : List A) → Ascending cmp (sort cmp xs)
