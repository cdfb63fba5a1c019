-- ===== src/LinkedList/Sweep.antt =====
-- `lrcu_list_for_each` with a body that takes elements off the list and frees them.
use light_rcu.Prelude.{
  ℕ, zero, suc, ◌+◌, ◌<◌, ◌≡◌, inl, inr, refl, ◌∙◌, Bool, true, false, not, none, List, [], ◌∷◌,
  ◌++◌, map, ◌==◌, update, length, length-append, select, ok, arith, Bool-cases, ==→eq,
}
use light_rcu.LinkedList.{Heap, check_depth, unlink_next, advance, sweep_rounds, sweep}
use light_rcu.LinkedList.Chain.{
  Cells, first, last_or, on, on-append, last_or-append, Chain, IsList, Chain-update, Chain-right,
  load-ok, free-ok,
}
use light_rcu.LinkedList.Check.{check_loop-ok}
use light_rcu.LinkedList.Insert.{update-same, update-other}
use light_rcu.LinkedList.Unlink.{append_assoc, Chain-off, Unlinked, unlink_next_lem}
use light_rcu.LinkedList.Walk.{Advances, advance-past, advance-over}

abbrev pub values : Cells → List ℕ
values = map (λ (c : ℕ × ℕ). c.1)

abbrev pub kept : (ℕ → Bool) → Cells → Cells
kept drops = select (λ (c : ℕ × ℕ). not (drops c.1))

-- What the rest of a sweep gives: `pre` was kept so far.
abbrev Sweeps : Heap → ℕ → (ℕ → Bool) → ℕ → ℕ → ℕ → Cells → Cells → Type 0
Sweeps h fuel drops k n prev pre rest =
    (g : Heap) × (sweep_rounds fuel drops k (first (pre ++ rest) 0) n prev h
      ≡ ok ((first (pre ++ kept drops rest) 0, values rest), g))
    × Chain g (pre ++ kept drops rest) 0
    × ((b : ℕ) → on b rest ≡ true → on b (kept drops rest) ≡ false → g b ≡ none)
    × ((b : ℕ) → on b (pre ++ rest) ≡ false → g b ≡ h b)

-- A sweep that goes on after an element that it keeps.
sweep-keep :
    (h : Heap) (fuel : ℕ) (drops : ℕ → Bool) (k n prev a v : ℕ) (pre rest : Cells)
    → Chain h (pre ++ (a, v) ∷ rest) 0
    → Advances h fuel (first (pre ++ (a, v) ∷ rest) 0) n prev (last_or 0 pre) ((a, v) ∷ rest)
    → drops v ≡ false
    → Sweeps h fuel drops k a (last_or 0 pre) (pre ++ (a, v) ∷ []) rest
    → Sweeps h fuel drops (suc k) n prev pre ((a, v) ∷ rest)
unfolding sweep_rounds
sweep-keep h fuel drops k n prev a v pre rest c adv d s =
    let r = Chain-right h pre ((a, v) ∷ rest) 0 c in
    let z : (a == 0) ≡ false = ground (arith, r.0) in
    let e = append_assoc pre ((a, v) ∷ []) rest in
    let e' = append_assoc pre ((a, v) ∷ []) (kept drops rest) in
    let run = rw (e, e') at (s.1) in
    (
      s.0,
      rw (adv, z, load-ok h a (first rest 0) v r.0 r.1, d, run) refl,
      rw d (rw e' at (s.2)),
      λ b o off.
          let f : on b ((a, v) ∷ kept drops rest) ≡ false = rw d at off in
          s.3 b (ground arith) (ground arith),
      λ b off. s.4 b (rw e off),
    )

middle-off :
    (h : Heap) (pre rest : Cells) (a v : ℕ)
    → Chain h (pre ++ (a, v) ∷ rest) 0
    → on a (pre ++ rest) ≡ false
middle-off h pre rest a v c =
    let r = Chain-right h pre ((a, v) ∷ rest) 0 c in
    let o = Chain-off h pre ((a, v) ∷ rest) 0 c a (ground arith) in
    ground (arith, on-append a pre rest, r.2)

-- A sweep that goes on after an element that it drops.
sweep-drop :
    (h g : Heap) (fuel : ℕ) (drops : ℕ → Bool) (k n prev a v : ℕ) (pre rest : Cells)
    → Chain h (pre ++ (a, v) ∷ rest) 0
    → Advances h fuel (first (pre ++ (a, v) ∷ rest) 0) n prev (last_or 0 pre) ((a, v) ∷ rest)
    → drops v ≡ true
    → unlink_next fuel (first (pre ++ (a, v) ∷ rest) 0) (last_or 0 pre) h
      ≡ ok (first (pre ++ rest) 0, g)
    → Unlinked h g pre a v rest
    → Sweeps (update g a none) fuel drops k a (last_or 0 pre) pre rest
    → Sweeps h fuel drops (suc k) n prev pre ((a, v) ∷ rest)
unfolding sweep_rounds
sweep-drop h g fuel drops k n prev a v pre rest c adv d u u' s =
    let r = Chain-right h pre ((a, v) ∷ rest) 0 c in
    let z : (a == 0) ≡ false = ground (arith, r.0) in
    let a_off = middle-off h pre rest a v c in
    let freed : (b : ℕ)
        → on b ((a, v) ∷ rest) ≡ true
        → on b (kept drops rest) ≡ false
        → s.0 b ≡ none =
      λ b o off. elim (Bool-cases (b == a)) [
        | inl same ↦ rw (==→eq b a same) (s.4 a a_off ∙ update-same g a none)
        | inr other ↦ s.3 b (ground arith) off
      ] in
    (
      s.0,
      rw (adv, z, load-ok h a (first rest 0) v r.0 r.1, d, u, free-ok g a 0 v r.0 u'.1, s.1) refl,
      rw d (s.2),
      λ b o off. freed b o (rw d at off),
      λ b off.
          let b_a : (b == a) ≡ false = ground (arith, on-append b pre ((a, v) ∷ rest)) in
          let o : on b (pre ++ rest) ≡ false =
            ground (arith, on-append b pre ((a, v) ∷ rest), on-append b pre rest) in
          s.4 b o ∙ update-other g a b none b_a ∙ u'.2 b off,
    )

sweep_rounds_lem :
    (h : Heap) (fuel : ℕ) (drops : ℕ → Bool) (k n prev : ℕ) (pre rest : Cells)
    → Chain h (pre ++ rest) 0
    → Advances h fuel (first (pre ++ rest) 0) n prev (last_or 0 pre) rest
    → length rest < k
    → length pre + length rest < fuel
    → length pre + length rest < check_depth
    → Sweeps h fuel drops k n prev pre rest
unfolding sweep_rounds
sweep_rounds_lem h fuel drops zero n prev pre rest c adv lt room short = ground arith
sweep_rounds_lem h fuel drops (suc k) n prev pre [] c adv lt room short =
    (h, rw adv refl, c, λ b o off. ground arith, λ b off. refl)
sweep_rounds_lem h fuel drops (suc k) n prev pre ((a, v) ∷ rest) c adv lt room short =
    let r = Chain-right h pre ((a, v) ∷ rest) 0 c in
    let pre' : Cells = pre ++ (a, v) ∷ [] in
    let size : length pre' ≡ suc (length pre) = omega (arith, length-append pre ((a, v) ∷ [])) in
    let q = append_assoc pre ((a, v) ∷ []) rest in
    elim (Bool-cases (drops v)) [
      | inl d ↦
          let u = unlink_next_lem h fuel a v pre rest c (omega arith) (omega arith) in
          let c' = Chain-update u.0 (pre ++ rest) 0 a none u.2.0 (middle-off h pre rest a v c) in
          sweep-drop h u.0 fuel drops k n prev a v pre rest c adv d u.1 u.2 (
            sweep_rounds_lem (update u.0 a none) fuel drops k a (last_or 0 pre) pre rest c'
              (advance-over (update u.0 a none) fuel a pre rest c' r.0 r.2) (omega arith)
              (omega arith) (omega arith))
      | inr d ↦
          let adv' = advance-past h fuel a v pre rest c in
          sweep-keep h fuel drops k n prev a v pre rest c adv d (
            sweep_rounds_lem h fuel drops k a (last_or 0 pre) pre' rest (rw q c)
              (rw (q, last_or-append 0 pre a v) adv') (omega arith) (omega arith) (omega arith))
    ]

-- A `lrcu_list_for_each` whose body unlinks and frees the elements that a test tells returns: the
-- body sees the value of each element once, in order, what is left are the elements that the test
-- does not tell, in their order, the others are freed, and nothing off the list is written.
pub sweep_lem :
    (h : Heap) (fuel lh : ℕ) (drops : ℕ → Bool) (cs : Cells)
    → IsList h lh cs
    → length cs < fuel
    → length cs < check_depth
    → (g : Heap) × (sweep fuel drops lh h ≡ ok ((first (kept drops cs) 0, values cs), g))
      × Chain g (kept drops cs) 0
      × ((b : ℕ) → on b cs ≡ true → on b (kept drops cs) ≡ false → g b ≡ none)
      × ((b : ℕ) → on b cs ≡ false → g b ≡ h b)
unfolding sweep advance
sweep_lem h fuel lh drops cs l room short =
    let s =
      sweep_rounds_lem h fuel drops fuel 0 0 [] cs l.1 refl room (omega arith) (omega arith) in
    (s.0, rw (check_loop-ok h fuel lh cs l room short, l.0) (s.1), s.2, s.3, s.4)
