-- ===== src/LinkedList/Splice.antt =====
-- `lrcu_list_splice` and `lrcu_list_get_tail`.
use light_rcu.Prelude.{
  ℕ, zero, suc, ◌+◌, ◌<◌, ◌≡◌, inl, inr, refl, sym, subst, true, false, some, [], ◌∷◌, ◌++◌, ◌==◌,
  update, length, length-append, ok, arith,
}
use light_rcu.LinkedList.{
  Heap, elem_of, check_depth, is_null, tail_rounds, get_tail, spliced, splice,
}
use light_rcu.LinkedList.Chain.{
  Cells, first, last_or, on, on-append, last_or-append, Chain, IsList, Chain-update, Chain-append,
  Chain-left, Chain-right, Chain-apart, load-ok, set_next-ok,
}
use light_rcu.LinkedList.Check.{check_loop-ok}
use light_rcu.LinkedList.Insert.{update-same, update-other}
use light_rcu.LinkedList.Unlink.{Cells-cases, append_assoc, Chain-off}

tail_rounds_lem :
    (h : Heap) (cs : Cells) (k e : ℕ)
    → Chain h cs 0
    → length cs < k
    → tail_rounds k (first cs 0) e h ≡ ok (last_or e cs, h)
unfolding tail_rounds
tail_rounds_lem h cs zero e c lt = ground arith
tail_rounds_lem h [] (suc k) e c lt = refl
tail_rounds_lem h ((a, v) ∷ cs) (suc k) e c lt =
    let z : (a == 0) ≡ false = ground (arith, c.0) in
    rw (z, load-ok h a (first cs 0) v c.0 c.1) (tail_rounds_lem h cs k a c.3 (omega arith))

-- `lrcu_list_get_tail` returns the last element, or `NULL` for an empty list, and writes nothing.
pub get_tail_lem :
    (h : Heap) (fuel lh : ℕ) (cs : Cells)
    → IsList h lh cs
    → length cs < fuel
    → length cs < check_depth
    → get_tail fuel lh h ≡ ok (last_or 0 cs, h)
unfolding get_tail
get_tail_lem h fuel lh cs l room short =
    rw (check_loop-ok h fuel lh cs l room short, l.0) (tail_rounds_lem h cs fuel 0 l.1 room)

first-same :
    (xs ys zs : Cells) (p w stop : ℕ)
    → first (xs ++ (p, w) ∷ ys) stop ≡ first (xs ++ (p, w) ∷ zs) stop
first-same [] ys zs p w stop = refl
first-same ((a, v) ∷ xs) ys zs p w stop = refl

first-nonnull :
    (h : Heap) (xs ys : Cells) (p w : ℕ)
    → Chain h (xs ++ (p, w) ∷ ys) 0
    → (first (xs ++ (p, w) ∷ ys) 0 == 0) ≡ false
first-nonnull h [] ys p w c = ground (arith, c.0)
first-nonnull h ((a, v) ∷ xs) ys p w c = ground (arith, c.0)

append-nil : (xs : Cells) → xs ++ [] ≡ xs
append-nil [] = refl
append-nil (x ∷ xs) = rw (append-nil xs) refl

-- What `lrcu_list_splice` gives.
abbrev pub Splices : Heap → ℕ → Cells → Cells → Type 0
Splices h fuel ys xs =
    (g : Heap) × (splice fuel (first xs 0) (first ys 0) h ≡ ok ((first (xs ++ ys) 0, 0), g))
    × Chain g (xs ++ ys) 0
    × ((b : ℕ) → on b xs ≡ false → g b ≡ h b)

module _ (h : Heap) (fuel b u : ℕ) (ys : Cells) where
  splice_empty :
      Chain h ((b, u) ∷ ys) 0
      → suc (length ys) < fuel
      → suc (length ys) < check_depth
      → Splices h fuel ((b, u) ∷ ys) []
  unfolding splice spliced is_null
  splice_empty c room short =
      let z : (b == 0) ≡ false = ground (arith, c.0) in
      let k = check_loop-ok h fuel b ((b, u) ∷ ys) (refl, c) room short in
      let k' = check_loop-ok h fuel 0 [] (refl, tt) (omega arith) (ground arith) in
      (h, rw (z, k, k') refl, c, λ b o. refl)

  joined-Chain :
      (p w : ℕ) (xs : Cells)
      → Chain h (xs ++ (p, w) ∷ []) 0
      → Chain h ((b, u) ∷ ys) 0
      → ((a : ℕ) → on a (xs ++ (p, w) ∷ []) ≡ true → on a ((b, u) ∷ ys) ≡ false)
      → Chain (update h p (some (elem_of b w))) ((xs ++ (p, w) ∷ []) ++ (b, u) ∷ ys) 0
  joined-Chain p w xs c d apart =
      let e = some (elem_of b w) in
      let r = Chain-right h xs ((p, w) ∷ []) 0 c in
      let off : on p xs ≡ false = Chain-off h xs ((p, w) ∷ []) 0 c p (ground arith) in
      let on_p : on p (xs ++ (p, w) ∷ []) ≡ true = ground (arith, on-append p xs ((p, w) ∷ [])) in
      let left = Chain-update h xs p p e (Chain-left h xs ((p, w) ∷ []) 0 c) off in
      let g : Heap = update h p e in
      let front =
        Chain-append g xs ((p, w) ∷ []) b left (r.0, update-same h p e, refl, tt)
          (Chain-apart h xs ((p, w) ∷ []) 0 c) in
      Chain-append g (xs ++ (p, w) ∷ []) ((b, u) ∷ ys) 0 front
        (Chain-update h ((b, u) ∷ ys) 0 p e d (apart p on_p)) apart

  splice_snoc :
      (p w : ℕ) (xs : Cells)
      → Chain h (xs ++ (p, w) ∷ []) 0
      → Chain h ((b, u) ∷ ys) 0
      → ((a : ℕ) → on a (xs ++ (p, w) ∷ []) ≡ true → on a ((b, u) ∷ ys) ≡ false)
      → suc (length xs) + suc (length ys) < fuel
      → suc (length xs) + suc (length ys) < check_depth
      → Splices h fuel ((b, u) ∷ ys) (xs ++ (p, w) ∷ [])
  unfolding splice spliced is_null
  splice_snoc p w xs c d apart room short =
      let front : Cells = xs ++ (p, w) ∷ [] in
      let n : length front ≡ suc (length xs) = omega (arith, length-append xs ((p, w) ∷ [])) in
      let n' : length (front ++ (b, u) ∷ ys) ≡ suc (length xs) + suc (length ys) =
        omega (arith, length-append front ((b, u) ∷ ys)) in
      let r = Chain-right h xs ((p, w) ∷ []) 0 c in
      let g : Heap = update h p (some (elem_of b w)) in
      let whole = joined-Chain p w xs c d apart in
      let zb : (b == 0) ≡ false = ground (arith, d.0) in
      let zp : (p == 0) ≡ false = ground (arith, r.0) in
      let zh : (first front 0 == 0) ≡ false = first-nonnull h xs [] p w c in
      let t = get_tail_lem h fuel (first front 0) front (refl, c) (omega arith) (omega arith) in
      let t' = rw (last_or-append 0 xs p w) at t in
      let k = check_loop-ok h fuel (first front 0) front (refl, c) (omega arith) (omega arith) in
      let s = set_next-ok h p 0 w r.0 r.1 b in
      let same : first front 0 ≡ first (front ++ (b, u) ∷ ys) 0 =
        rw (append_assoc xs ((p, w) ∷ []) ((b, u) ∷ ys)) (first-same xs [] ((b, u) ∷ ys) p w 0) in
      let k' =
        check_loop-ok g fuel (first front 0) (front ++ (b, u) ∷ ys) (same, whole) (omega arith)
          (omega arith) in
      let k'' = check_loop-ok g fuel 0 [] (refl, tt) (omega arith) (ground arith) in
      (
        g,
        rw (zb, zh, t', zp, k, s, k', k'', same) refl,
        whole,
        λ a o.
            let q = on-append a xs ((p, w) ∷ []) in
            update-other h p a (some (elem_of b w)) (ground arith),
      )

-- `lrcu_list_splice` of two lists with no element in common returns: the first list is followed by
-- the second, whose head is then `NULL`, and no element is written that was not on the first.
pub splice_lem :
    (h : Heap) (fuel : ℕ) (xs ys : Cells)
    → Chain h xs 0
    → Chain h ys 0
    → ((a : ℕ) → on a xs ≡ true → on a ys ≡ false)
    → length xs + length ys < fuel
    → length xs + length ys < check_depth
    → Splices h fuel ys xs
unfolding splice is_null
splice_lem h fuel xs [] c d apart room short =
    (h, rw (append-nil xs) refl, rw (append-nil xs) c, λ b o. refl)
splice_lem h fuel xs ((b, u) ∷ ys) c d apart room short = elim (Cells-cases xs) [
  | inl e ↦
      subst (λ (x : Cells). Splices h fuel ((b, u) ∷ ys) x) (sym e)
        (splice_empty h fuel b u ys d (omega arith) (omega arith))
  | inr s ↦
      let n : length xs ≡ suc (length s.0) =
        rw (s.3) (omega (arith, length-append s.0 ((s.1, s.2) ∷ []))) in
      subst (λ (x : Cells). Splices h fuel ((b, u) ∷ ys) x) (sym s.3)
        (splice_snoc h fuel b u ys s.1 s.2 s.0 (rw (s.3) at c) d (λ a k. apart a (rw (s.3) k))
          (omega arith) (omega arith))
]
