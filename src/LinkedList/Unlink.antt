-- ===== src/LinkedList/Unlink.antt =====
-- `lrcu_list_unlink_next`.
use light_rcu.Prelude.{
  ℕ, suc, ◌+◌, ◌<◌, ◌≡◌, ◌⊎◌, inl, inr, refl, sym, subst, true, false, some, [], ◌∷◌, ◌++◌, ◌==◌,
  update, length, length-append, ok, arith, Bool-cases,
}
use light_rcu.LinkedList.{Heap, elem_of, check_depth, unlink_next}
use light_rcu.LinkedList.Chain.{
  Cells, first, last_or, on, on-append, first-append, last_or-append, Chain, Chain-update,
  Chain-append, Chain-left, Chain-right, Chain-apart, load-ok, set_next-ok,
}
use light_rcu.LinkedList.Check.{check_loop-ok}
use light_rcu.LinkedList.Insert.{update-same, update-other}

-- To split on the last element.
pub Cells-cases :
    (cs : Cells) → (cs ≡ []) ⊎ ((xs : Cells) × (p : ℕ) × (w : ℕ) × (cs ≡ xs ++ (p, w) ∷ []))
Cells-cases [] = inl refl
Cells-cases ((a, v) ∷ cs) = elim (Cells-cases cs) [
  | inl e ↦ inr ([], a, v, rw e refl)
  | inr s ↦ inr ((a, v) ∷ s.0, s.1, s.2, rw (s.3) refl)
]

pub append_assoc : (xs ys zs : Cells) → (xs ++ ys) ++ zs ≡ xs ++ (ys ++ zs)
append_assoc [] ys zs = refl
append_assoc (x ∷ xs) ys zs = rw (append_assoc xs ys zs) refl

-- An element after a part of a list is not on that part.
pub Chain-off :
    (h : Heap) (xs ys : Cells) (stop : ℕ)
    → Chain h (xs ++ ys) stop
    → (a : ℕ) → on a ys ≡ true
    → on a xs ≡ false
Chain-off h xs ys stop c a k = elim (Bool-cases (on a xs)) [
  | inl z ↦ ground (arith, Chain-apart h xs ys stop c a z)
  | inr z ↦ z
]

-- What unlinking `a`, after `pre`, leaves: the others in their order, `a` alone, and the rest of the
-- heap as before.
abbrev pub Unlinked : Heap → Heap → Cells → ℕ → ℕ → Cells → Type 0
Unlinked h g pre a v rest =
    Chain g (pre ++ rest) 0
    × (g a ≡ some (elem_of 0 v))
    × ((b : ℕ) → on b (pre ++ (a, v) ∷ rest) ≡ false → g b ≡ h b)

unlink_first :
    (h : Heap) (fuel a v : ℕ) (rest : Cells)
    → Chain h ((a, v) ∷ rest) 0
    → length rest < fuel
    → length rest < check_depth
    → (g : Heap) × (unlink_next fuel a 0 h ≡ ok (first rest 0, g)) × Unlinked h g [] a v rest
unfolding unlink_next
unlink_first h fuel a v rest c room short =
    let g : Heap = update h a (some (elem_of 0 v)) in
    let z : (a == 0) ≡ false = ground (arith, c.0) in
    let d = Chain-update h rest 0 a (some (elem_of 0 v)) c.3 c.2 in
    let k = check_loop-ok g fuel (first rest 0) rest (refl, d) room short in
    (
      g,
      rw (z, load-ok h a (first rest 0) v c.0 c.1, set_next-ok h a (first rest 0) v c.0 c.1 0, k)
          refl,
      (
        d,
        update-same h a (some (elem_of 0 v)),
        λ b off. update-other h a b (some (elem_of 0 v)) (ground arith),
      ),
    )

-- The heap after `e->next = t->next` and `t->next = NULL`.
abbrev relinked : Heap → ℕ → ℕ → ℕ → ℕ → ℕ → Heap
relinked h a v p w q = update (update h a (some (elem_of 0 v))) p (some (elem_of q w))

module _ (h : Heap) (a v p w : ℕ) (xs rest : Cells)
    (c : Chain h (xs ++ (p, w) ∷ (a, v) ∷ rest) 0) where
  relinked-Chain : Chain (relinked h a v p w (first rest 0)) (xs ++ (p, w) ∷ rest) 0
  relinked-Chain =
      let tail : Cells = (p, w) ∷ (a, v) ∷ rest in
      let ea = some (elem_of 0 v) in
      let ep = some (elem_of (first rest 0) w) in
      let h1 : Heap = update h a ea in
      let r = Chain-right h xs tail 0 c in
      let off_a : on a xs ≡ false = Chain-off h xs tail 0 c a (ground arith) in
      let off_p : on p xs ≡ false = Chain-off h xs tail 0 c p (ground arith) in
      let p_rest : on p rest ≡ false = ground (arith, r.2) in
      let left = Chain-update h xs p a ea (Chain-left h xs tail 0 c) off_a in
      let right = Chain-update h rest 0 a ea r.3.3 r.3.2 in
      Chain-append (update h1 p ep) xs ((p, w) ∷ rest) 0 (Chain-update h1 xs p p ep left off_p)
        (r.0, update-same h1 p ep, p_rest, Chain-update h1 rest 0 p ep right p_rest)
        (λ b k. let z = Chain-apart h xs tail 0 c b k in ground arith)

  relinked-Unlinked : Unlinked h (relinked h a v p w (first rest 0)) (xs ++ (p, w) ∷ []) a v rest
  relinked-Unlinked =
      let r = Chain-right h xs ((p, w) ∷ (a, v) ∷ rest) 0 c in
      let a_p : (a == p) ≡ false = ground (arith, r.2) in
      let ea = some (elem_of 0 v) in
      (
        rw (append_assoc xs ((p, w) ∷ []) rest) relinked-Chain,
        rw a_p (update-same h a ea),
        λ b o.
            let o' = rw (append_assoc xs ((p, w) ∷ []) ((a, v) ∷ rest)) at o in
            let o'' = on-append b xs ((p, w) ∷ (a, v) ∷ rest) in
            let b_p : (b == p) ≡ false = ground arith in
            let b_a : (b == a) ≡ false = ground arith in rw b_p (update-other h a b ea b_a),
      )

  unlink_after :
      (fuel : ℕ)
      → suc (length xs) + length rest < fuel
      → suc (length xs) + length rest < check_depth
      → unlink_next fuel (first (xs ++ (p, w) ∷ rest) 0) p h
        ≡ ok (first (xs ++ (p, w) ∷ rest) 0, relinked h a v p w (first rest 0))
  unfolding unlink_next
  unlink_after fuel room short =
      let r = Chain-right h xs ((p, w) ∷ (a, v) ∷ rest) 0 c in
      let h1 : Heap = update h a (some (elem_of 0 v)) in
      let p_a : (p == a) ≡ false = ground (arith, r.2) in
      let at_p : h1 p ≡ some (elem_of a w) = rw p_a (r.1) in
      let size : length (xs ++ (p, w) ∷ rest) ≡ suc (length xs) + length rest =
        omega (arith, length-append xs ((p, w) ∷ rest)) in
      let k =
        check_loop-ok (relinked h a v p w (first rest 0)) fuel (first (xs ++ (p, w) ∷ rest) 0)
          (xs ++ (p, w) ∷ rest) (refl, relinked-Chain) (omega arith) (omega arith) in
      let zp : (p == 0) ≡ false = ground (arith, r.0) in
      let za : (a == 0) ≡ false = ground (arith, r.3.0) in
      rw
        (
          zp,
          load-ok h p a w r.0 r.1,
          za,
          load-ok h a (first rest 0) v r.3.0 r.3.1,
          set_next-ok h a (first rest 0) v r.3.0 r.3.1 0,
          set_next-ok h1 p a w r.0 at_p (first rest 0),
          k,
        )
        refl

-- What `lrcu_list_unlink_next` gives after the elements `pre`.
abbrev pub Unlinks : Heap → ℕ → ℕ → ℕ → Cells → Cells → Type 0
Unlinks h fuel a v rest pre =
    (g : Heap) × (unlink_next fuel (first (pre ++ (a, v) ∷ rest) 0) (last_or 0 pre) h
      ≡ ok (first (pre ++ rest) 0, g))
    × Unlinked h g pre a v rest

unlink_snoc :
    (h : Heap) (fuel a v p w : ℕ) (xs rest : Cells)
    → Chain h (xs ++ (p, w) ∷ (a, v) ∷ rest) 0
    → suc (length xs) + length rest < fuel
    → suc (length xs) + length rest < check_depth
    → Unlinks h fuel a v rest (xs ++ (p, w) ∷ [])
unlink_snoc h fuel a v p w xs rest c room short =
    let r = unlink_after h a v p w xs rest c fuel room short in
    let q = first-append xs ((p, w) ∷ rest) 0 in
    let q' = first-append xs ((p, w) ∷ (a, v) ∷ rest) 0 in
    let r' = rw q at r in
    (
      relinked h a v p w (first rest 0),
      rw
          (
            append_assoc xs ((p, w) ∷ []) rest,
            append_assoc xs ((p, w) ∷ []) ((a, v) ∷ rest),
            last_or-append 0 xs p w,
            q,
            q',
          )
          r',
      relinked-Unlinked h a v p w xs rest c,
    )

-- `lrcu_list_unlink_next` after any element of a list, or after `NULL` for the first one, returns:
-- the next element is taken off, the others stay in their order, and nothing else is written. What is
-- taken off points to `NULL`.
pub unlink_next_lem :
    (h : Heap) (fuel a v : ℕ) (pre rest : Cells)
    → Chain h (pre ++ (a, v) ∷ rest) 0
    → length pre + length rest < fuel
    → length pre + length rest < check_depth
    → Unlinks h fuel a v rest pre
unlink_next_lem h fuel a v pre rest c room short = elim (Cells-cases pre) [
  | inl e ↦
      let c' : Chain h ((a, v) ∷ rest) 0 = rw e at c in
      let n : length pre ≡ 0 = rw e refl in
      subst (λ (x : Cells). Unlinks h fuel a v rest x) (sym e)
        (unlink_first h fuel a v rest c' (omega arith) (omega arith))
  | inr s ↦
      let c' = rw (append_assoc s.0 ((s.1, s.2) ∷ []) ((a, v) ∷ rest)) at (rw (s.3) at c) in
      let n : length pre ≡ suc (length s.0) =
        rw (s.3) (omega (arith, length-append s.0 ((s.1, s.2) ∷ []))) in
      subst (λ (x : Cells). Unlinks h fuel a v rest x) (sym s.3)
        (unlink_snoc h fuel a v s.1 s.2 s.0 rest c' (omega arith) (omega arith))
]
