-- ===== src/Range/Slices.antt =====
-- Slices of the array, as lists and by index: equality, predicates, cover and disjointness.
use light_rcu.Prelude.{
  ℕ, zero, suc, ◌+◌, ◌≤◌, ◌<◌, ◌≡◌, refl, subst, true, false, ◌==◌, ==→eq, ==→ne, Bool-cases, inl,
  inr, arith, All,
}
use light_rcu.Range.{Range, Slots, slice}
use light_rcu.Range.Spec.{contains, covers, DisjointFrom}

-- Slices read equal slots alike.
pub slice-eq :
    (r s : Slots) (i n : ℕ) → ((k : ℕ) → i ≤ k → k < i + n → r k ≡ s k) → slice r i n ≡ slice s i n
slice-eq r s i zero h = refl
slice-eq r s i (suc n) h =
    ground (arith, h i, slice-eq r s (i + 1) n (λ k p q. h k (omega arith) (omega arith)))

pub All-slice {ℓ} :
    (P : Range → Type ℓ) (r : Slots) (i n : ℕ)
    → All P (slice r i n)
    → (q : ℕ) → i ≤ q
    → q < i + n
    → P (r q)
All-slice P r i zero h q a b = absurd (omega arith)
All-slice P r i (suc n) h q a b = elim (Bool-cases (i == q)) [
  | inl here ↦ subst (λ k. P (r k)) (==→eq i q here) h.0
  | inr on ↦ All-slice P r (i + 1) n h.1 q (omega (arith, ==→ne i q on)) (omega arith)
]

pub covers-none :
    (r : Slots) (v i n : ℕ)
    → ((k : ℕ) → i ≤ k → k < i + n → contains (r k) v ≡ false)
    → covers (slice r i n) v ≡ false
covers-none r v i zero h = refl
covers-none r v i (suc n) h =
    ground (arith, h i, covers-none r v (i + 1) n (λ k p q. h k (omega arith) (omega arith)))

pub covers-some :
    (r : Slots) (v i n k : ℕ)
    → i ≤ k
    → k < i + n
    → contains (r k) v ≡ true
    → covers (slice r i n) v ≡ true
covers-some r v i zero k p q h = absurd (omega arith)
covers-some r v i (suc n) k p q h = elim (Bool-cases (i == k)) [
  | inl here ↦ ground arith
  | inr on ↦ ground (arith, covers-some r v (i + 1) n k)
]

-- Disjointness by index.
pub record Apart (r : Slots) (i n : ℕ) : Type 0 where
  pub proper : (k : ℕ) → i ≤ k → k < i + n → (r k).minv ≤ (r k).maxv
  pub apart : (j k : ℕ) → i ≤ j → j < k → k < i + n → (r j).maxv < (r k).minv

slice-above :
    (r : Slots) (i n lo k : ℕ) → DisjointFrom lo (slice r i n) → i ≤ k → k < i + n → lo ≤ (r k).minv
slice-above r i zero lo k d a b = absurd (omega arith)
slice-above r i (suc n) lo k d a b = elim (Bool-cases (i == k)) [
  | inl here ↦ ground arith
  | inr on ↦
      omega (
        arith,
        slice-above r (i + 1) n ((r i).maxv + 1) k d.2 (ground arith) (omega arith),
        d.0,
        d.1,
      )
]

pub Disjoint-Apart : (r : Slots) (i n lo : ℕ) → DisjointFrom lo (slice r i n) → Apart r i n
Disjoint-Apart r i zero lo d = record {
  proper = λ k a b. absurd (omega arith);
  apart = λ j k a b c. absurd (omega arith);
}
Disjoint-Apart r i (suc n) lo d =
    let rest = Disjoint-Apart r (i + 1) n ((r i).maxv + 1) d.2 in
    record {
      proper = λ k a b. elim (Bool-cases (i == k)) [
        | inl here ↦ ground arith
        | inr on ↦ rest.proper k (ground arith) (omega arith)
      ];
      apart = λ j k a b c. elim (Bool-cases (i == j)) [
        | inl here ↦
            ground
              (arith, slice-above r (i + 1) n ((r i).maxv + 1) k d.2 (ground arith) (omega arith))
        | inr on ↦ rest.apart j k (ground arith) b (omega arith)
      ];
    }

-- Back from slots to lists.
pub covers-index :
    (r : Slots) (v i n : ℕ)
    → covers (slice r i n) v ≡ true
    → (k : ℕ) × (i ≤ k) × (k < i + n) × (contains (r k) v ≡ true)
covers-index r v i zero h = cc
covers-index r v i (suc n) h = elim (Bool-cases (contains (r i) v)) [
  | inl here ↦ (i, omega arith, omega arith, here)
  | inr on ↦
      let (k, a, b, c) = covers-index r v (i + 1) n (ground arith) in
      (k, omega arith, omega arith, c)
]

pub slice-All :
    (P : Range → Type 0) (r : Slots) (i n : ℕ)
    → ((k : ℕ) → i ≤ k → k < i + n → P (r k))
    → All P (slice r i n)
slice-All P r i zero h = tt
slice-All P r i (suc n) h = (
  h i (omega arith) (omega arith),
  slice-All P r (i + 1) n (λ k a b. h k (omega arith) (omega arith)),
)

pub Apart-Disjoint :
    (r : Slots) (i n lo : ℕ)
    → Apart r i n
    → (0 < n → lo ≤ (r i).minv)
    → DisjointFrom lo (slice r i n)
Apart-Disjoint r i zero lo a l = tt
Apart-Disjoint r i (suc n) lo a l = (
  l (omega arith),
  a.proper i (omega arith) (omega arith),
  Apart-Disjoint r (i + 1) n ((r i).maxv + 1)
      (record {
        proper = λ k p q. a.proper k (omega arith) (omega arith);
        apart = λ j k p q s. a.apart j k (omega arith) q (omega arith);
      })
      (λ p. omega (arith, a.apart i (i + 1) (omega arith) (omega arith) (omega arith))),
)
