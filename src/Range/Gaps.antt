-- ===== src/Range/Gaps.antt =====
-- The loop of `lrcu_rangetree_squeeze`, which looks for the least gap.
use light_rcu.Prelude.{
  ℕ, zero, suc, ◌+◌, ◌≤◌, ◌<◌, ◌==◌, Bool-cases, inl, inr, arith, ltb, ltb→lt, ltb→le, ==→ne, ==→eq,
}
use light_rcu.Range.{Slots, sub64, squeeze_loop}

-- The gap behind slot `i`, as the code computes it.
abbrev pub gap : Slots → ℕ → ℕ
gap r i = sub64 (r (i + 1)).minv (r i).maxv

pub squeeze_loop-le : (r : Slots) (n d k top : ℕ) → n ≤ top → k ≤ top → squeeze_loop r n d k ≤ top
unfolding squeeze_loop
squeeze_loop-le r zero d k top p q = q
squeeze_loop-le r (suc i) d k top p q =
    ground (arith, squeeze_loop-le r i (gap r (suc i)) (suc i) top, squeeze_loop-le r i d k top)

pub squeeze_loop-pos : (r : Slots) (n d k : ℕ) → 0 < k → 0 < squeeze_loop r n d k
unfolding squeeze_loop
squeeze_loop-pos r zero d k p = p
squeeze_loop-pos r (suc i) d k p =
    ground (arith, squeeze_loop-pos r i (gap r (suc i)) (suc i), squeeze_loop-pos r i d k)

-- The slot chosen has the least gap of those that the loop looks at.
pub squeeze_loop-least :
    (r : Slots) (n d k : ℕ)
    → 0 < d
    → gap r k ≤ d
    → ((i : ℕ) → 0 < i → i ≤ n → 0 < gap r i)
    → (gap r (squeeze_loop r n d k) ≤ d)
      × ((i : ℕ) → 0 < i → i ≤ n → gap r (squeeze_loop r n d k) ≤ gap r i)
unfolding squeeze_loop
squeeze_loop-least r zero d k pos h gaps = (h, λ i a b. absurd (omega arith))
squeeze_loop-least r (suc n) d k pos h gaps = elim (Bool-cases (gap r (suc n) == 1)) [
  | inl one ↦ rw one (
    omega (arith, ==→eq (gap r (suc n)) 1 one),
    λ i a b. omega (arith, ==→eq (gap r (suc n)) 1 one, gaps i a b),
  )
  | inr more ↦ elim (Bool-cases (ltb (gap r (suc n)) d)) [
    | inl closer ↦
        let lt = ltb→lt (gap r (suc n)) d closer in
        let (le, least) =
          squeeze_loop-least r n (gap r (suc n)) (suc n) (gaps (suc n) (omega arith) (omega arith))
            (omega arith) (λ i a b. gaps i a (omega arith)) in
        rw (more, closer)
          (
            omega arith,
            λ i a b. elim (Bool-cases (i == suc n)) [
              | inl last ↦ rw (==→eq i (suc n) last) le
              | inr inner ↦ least i a (omega (arith, ==→ne i (suc n) inner))
            ],
          )
    | inr not_closer ↦
        let ge = ltb→le (gap r (suc n)) d not_closer in
        let (le, least) = squeeze_loop-least r n d k pos h (λ i a b. gaps i a (omega arith)) in
        rw (more, not_closer)
          (
            le,
            λ i a b. elim (Bool-cases (i == suc n)) [
              | inl last ↦ rw (==→eq i (suc n) last) (omega arith)
              | inr inner ↦ least i a (omega (arith, ==→ne i (suc n) inner))
            ],
          )
  ]
]
