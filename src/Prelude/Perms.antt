-- ===== src/Prelude/Perms.antt =====
-- What a permutation leaves alone.
use mathlib.Core.Path.{◌≡◌, refl, ◌∙◌, ap}
use mathlib.Core.List.{List, ◌∷◌, Perm, Permᴰ}
use mathlib.Core.Logic.{∥∥₁_elim}
use Prim.Native.Nat.{suc}
use native.Mathlib.Nat.{ℕ_set}
use light_rcu.Prelude.Lists.{length}

module _ {A B : Type 0} (f : List A → B) (B-set : IsSet B)
    (cons-eq : (a : A) (xs ys : List A) → f xs ≡ f ys → f (a ∷ xs) ≡ f (a ∷ ys))
    (swap-eq : (a b : A) (xs : List A) → f (a ∷ b ∷ xs) ≡ f (b ∷ a ∷ xs)) where
  Permᴰ-invariant : {xs ys : List A} → Permᴰ xs ys → f xs ≡ f ys
  Permᴰ-invariant Permᴰ.nil = refl
  Permᴰ-invariant (Permᴰ.cons {a} {b} {l₁} {l₂} e p) =
      cons-eq a l₁ l₂ (Permᴰ-invariant p) ∙ ap (λ x. f (x ∷ l₂)) e
  Permᴰ-invariant (Permᴰ.swap {a} {b} {a'} {b'} {l} e e') =
      swap-eq a b l ∙ ap (λ x. f (x ∷ a ∷ l)) e' ∙ ap (λ x. f (a' ∷ x ∷ l)) e
  Permᴰ-invariant (Permᴰ.trans p q) = Permᴰ-invariant p ∙ Permᴰ-invariant q

  -- A function that forgets the order of two neighbours forgets any order.
  pub perm-invariant : {xs ys : List A} → Perm xs ys → f xs ≡ f ys
  perm-invariant {xs} {ys} p = ∥∥₁_elim p (B-set (f xs) (f ys)) Permᴰ-invariant

pub length-perm : {A : Type 0} {xs ys : List A} → Perm xs ys → length xs ≡ length ys
length-perm = perm-invariant length ℕ_set (λ a xs ys e. ap suc e) (λ a b xs. refl)
