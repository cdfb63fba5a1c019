-- ===== src/LinkedList/Walk.antt =====
-- `__lrcu_list_for_each_get___n`: where a walk goes on after an element that stays on the list, and
-- after one that its body took off.
use light_rcu.Prelude.{
  ℕ, ◌≡◌, ◌≢◌, inl, inr, refl, sym, subst, true, false, not, ◌||◌, [], ◌∷◌, ◌++◌, ◌==◌, ok, arith,
}
use light_rcu.LinkedList.{Heap, advance}
use light_rcu.LinkedList.Chain.{
  Cells, first, last_or, on, last_or-append, Chain, Chain-right, load-ok,
}
use light_rcu.LinkedList.Check.{off-first}
use light_rcu.LinkedList.Unlink.{Cells-cases, append_assoc}

-- The walk stands before `rest`, and after `pre`.
abbrev pub Advances : Heap → ℕ → ℕ → ℕ → ℕ → ℕ → Cells → Type 0
Advances h fuel lh n prev prev' rest = advance fuel n prev lh h ≡ ok ((first rest 0, prev'), h)

past_snoc :
    (h : Heap) (fuel lh n v p w : ℕ) (xs rest : Cells)
    → Chain h (xs ++ (p, w) ∷ (n, v) ∷ rest) 0
    → Advances h fuel lh n p n rest
unfolding advance
past_snoc h fuel lh n v p w xs rest c =
    let r = Chain-right h xs ((p, w) ∷ (n, v) ∷ rest) 0 c in
    let zp : (p == 0) ≡ false = ground (arith, r.0) in
    let zn : (n == n) ≡ true = ground arith in
    rw (zp, load-ok h p n w r.0 r.1, zn, load-ok h n (first rest 0) v r.3.0 r.3.1) refl

past_first :
    (h : Heap) (fuel n v : ℕ) (rest : Cells)
    → Chain h ((n, v) ∷ rest) 0
    → Advances h fuel n n 0 n rest
unfolding advance
past_first h fuel n v rest c =
    let zn : (n == 0) ≡ false = ground (arith, c.0) in
    let z : (n == n) ≡ true = ground arith in rw (zn, z, load-ok h n (first rest 0) v c.0 c.1) refl

-- After an element that stays, the walk goes on with the one after it, and keeps that element as the
-- one before.
pub advance-past :
    (h : Heap) (fuel n v : ℕ) (pre rest : Cells)
    → Chain h (pre ++ (n, v) ∷ rest) 0
    → Advances h fuel (first (pre ++ (n, v) ∷ rest) 0) n (last_or 0 pre) n rest
advance-past h fuel n v pre rest c =
    let goal : Cells → Type 0 = λ x.
      Chain h (x ++ (n, v) ∷ rest) 0
      → Advances h fuel (first (x ++ (n, v) ∷ rest) 0) n (last_or 0 x) n rest in
    elim (Cells-cases pre) [
      | inl e ↦ subst goal (sym e) (past_first h fuel n v rest) c
      | inr s ↦
          let l = last_or-append 0 s.0 s.1 s.2 in
          let q = append_assoc s.0 ((s.1, s.2) ∷ []) ((n, v) ∷ rest) in
          subst goal (sym s.3)
            (λ d.
              rw (l, q)
                (past_snoc h fuel (first (s.0 ++ (s.1, s.2) ∷ (n, v) ∷ rest) 0) n v s.1 s.2 s.0 rest
                  (rw q at d)))
            c
    ]

over_snoc :
    (h : Heap) (fuel lh n p w : ℕ) (xs rest : Cells)
    → Chain h (xs ++ (p, w) ∷ rest) 0
    → n ≢ 0
    → on n rest ≡ false
    → Advances h fuel lh n p p rest
unfolding advance
over_snoc h fuel lh n p w xs rest c ne off =
    let r = Chain-right h xs ((p, w) ∷ rest) 0 c in
    let zp : (p == 0) ≡ false = ground (arith, r.0) in
    let z : (first rest 0 == n) ≡ false = ground (arith, off-first n rest ne off) in
    rw (zp, load-ok h p (first rest 0) w r.0 r.1, z) refl

over_first :
    (h : Heap) (fuel n : ℕ) (rest : Cells)
    → n ≢ 0
    → on n rest ≡ false
    → Advances h fuel (first rest 0) n 0 0 rest
unfolding advance
over_first h fuel n rest ne off =
    let z : ((n == 0) || not (n == first rest 0)) ≡ true =
      ground (arith, off-first n rest ne off) in
    rw z refl

-- After an element that is no longer on the list, the walk goes on with the one that took its place.
pub advance-over :
    (h : Heap) (fuel n : ℕ) (pre rest : Cells)
    → Chain h (pre ++ rest) 0
    → n ≢ 0
    → on n rest ≡ false
    → Advances h fuel (first (pre ++ rest) 0) n (last_or 0 pre) (last_or 0 pre) rest
advance-over h fuel n pre rest c ne off =
    let goal : Cells → Type 0 = λ x.
      Chain h (x ++ rest) 0
      → Advances h fuel (first (x ++ rest) 0) n (last_or 0 x) (last_or 0 x) rest in
    elim (Cells-cases pre) [
      | inl e ↦ subst goal (sym e) (λ d. over_first h fuel n rest ne off) c
      | inr s ↦
          let l = last_or-append 0 s.0 s.1 s.2 in
          let q = append_assoc s.0 ((s.1, s.2) ∷ []) rest in
          subst goal (sym s.3)
            (λ d.
              rw (l, q)
                (over_snoc h fuel (first (s.0 ++ (s.1, s.2) ∷ rest) 0) n s.1 s.2 s.0 rest
                  (rw q at d) ne off))
            c
    ]
