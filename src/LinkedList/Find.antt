-- ===== src/LinkedList/Find.antt =====
-- `lrcu_list_find_ptr` and `lrcu_list_find_ptr_unlink`, and the lists of values that src/lrcu.c uses them
-- for.
use light_rcu.Prelude.{
  ℕ, zero, suc, ◌+◌, ◌<◌, ◌≡◌, inl, inr, refl, Bool, true, false, not, [], ◌∷◌, ◌++◌, ◌==◌,
  if◌then◌else◌, length, length-append, ok, arith, Bool-cases,
}
use light_rcu.LinkedList.{Heap, check_depth, advance, find_rounds, find_ptr_unlink}
use light_rcu.LinkedList.Chain.{
  Cells, first, last_or, last_or-append, Chain, IsList, Chain-right, load-ok,
}
use light_rcu.LinkedList.Check.{check_loop-ok}
use light_rcu.LinkedList.Unlink.{append_assoc, unlink_next_lem}
use light_rcu.LinkedList.Walk.{Advances, advance-past}
use light_rcu.LinkedList.Sweep.{values}
use light_rcu.Rcu.Admin.{has, unlink}

-- The first element with a value, 0 without one, and the list without that element.
abbrev pub found : ℕ → Cells → ℕ
found p [] = 0
found p ((a, v) ∷ cs) = if v == p then a else found p cs

abbrev pub without : ℕ → Cells → Cells
without p [] = []
without p ((a, v) ∷ cs) = if v == p then cs else (a, v) ∷ without p cs

abbrev left : Bool → ℕ → Cells → Cells
left unlinks p cs = if unlinks then without p cs else cs

values-without : (p : ℕ) (cs : Cells) → values (without p cs) ≡ unlink p (values cs)
unfolding unlink
values-without p [] = refl
values-without p ((a, v) ∷ cs) = elim (Bool-cases (v == p)) [
  | inl e ↦ rw e refl
  | inr e ↦ rw (e, values-without p cs) refl
]

found-null :
    (h : Heap) (p : ℕ) (cs : Cells) → Chain h cs 0 → not (found p cs == 0) ≡ has p (values cs)
unfolding has
found-null h p [] c = refl
found-null h p ((a, v) ∷ cs) c = elim (Bool-cases (v == p)) [
  | inl e ↦ let z : (a == 0) ≡ false = ground (arith, c.0) in rw (e, z) refl
  | inr e ↦ rw (e, found-null h p cs c.3) refl
]

-- What the rest of a search gives after `pre`.
abbrev Finds : Heap → ℕ → ℕ → Bool → ℕ → ℕ → ℕ → Cells → Cells → Type 0
Finds h fuel p unlinks k n prev pre rest =
    (g : Heap) × (find_rounds fuel p unlinks k (first (pre ++ rest) 0) n prev h
      ≡ ok ((found p rest, first (pre ++ left unlinks p rest) 0), g))
    × Chain g (pre ++ left unlinks p rest) 0

find_here :
    (h : Heap) (fuel p : ℕ) (unlinks : Bool) (k n prev a v : ℕ) (pre rest : Cells)
    → Chain h (pre ++ (a, v) ∷ rest) 0
    → Advances h fuel (first (pre ++ (a, v) ∷ rest) 0) n prev (last_or 0 pre) ((a, v) ∷ rest)
    → length pre + length rest < fuel
    → length pre + length rest < check_depth
    → (v == p) ≡ true
    → Finds h fuel p unlinks (suc k) n prev pre ((a, v) ∷ rest)
unfolding find_rounds
find_here h fuel p true k n prev a v pre rest c adv room short e =
    let r = Chain-right h pre ((a, v) ∷ rest) 0 c in
    let z : (a == 0) ≡ false = ground (arith, r.0) in
    let u = unlink_next_lem h fuel a v pre rest c room short in
    (u.0, rw (adv, z, load-ok h a (first rest 0) v r.0 r.1, e, u.1) refl, rw e (u.2.0))
find_here h fuel p false k n prev a v pre rest c adv room short e =
    let r = Chain-right h pre ((a, v) ∷ rest) 0 c in
    let z : (a == 0) ≡ false = ground (arith, r.0) in
    (h, rw (adv, z, load-ok h a (first rest 0) v r.0 r.1, e) refl, c)

left-cons :
    (unlinks : Bool) (p a v : ℕ) (cs : Cells)
    → (v == p) ≡ false
    → left unlinks p ((a, v) ∷ cs) ≡ (a, v) ∷ left unlinks p cs
left-cons true p a v cs e = rw e refl
left-cons false p a v cs e = refl

find_later :
    (h : Heap) (fuel p : ℕ) (unlinks : Bool) (k n prev a v : ℕ) (pre rest : Cells)
    → Chain h (pre ++ (a, v) ∷ rest) 0
    → Advances h fuel (first (pre ++ (a, v) ∷ rest) 0) n prev (last_or 0 pre) ((a, v) ∷ rest)
    → (v == p) ≡ false
    → Finds h fuel p unlinks k a (last_or 0 pre) (pre ++ (a, v) ∷ []) rest
    → Finds h fuel p unlinks (suc k) n prev pre ((a, v) ∷ rest)
unfolding find_rounds
find_later h fuel p unlinks k n prev a v pre rest c adv e s =
    let r = Chain-right h pre ((a, v) ∷ rest) 0 c in
    let z : (a == 0) ≡ false = ground (arith, r.0) in
    let q = append_assoc pre ((a, v) ∷ []) rest in
    let q' = append_assoc pre ((a, v) ∷ []) (left unlinks p rest) in
    let run = rw (q, q') at (s.1) in
    let l = left-cons unlinks p a v rest e in
    (s.0, rw (l, adv, z, load-ok h a (first rest 0) v r.0 r.1, e, run) refl, rw l (rw q' at (s.2)))

find_rounds_lem :
    (h : Heap) (fuel p : ℕ) (unlinks : Bool) (k n prev : ℕ) (pre rest : Cells)
    → Chain h (pre ++ rest) 0
    → Advances h fuel (first (pre ++ rest) 0) n prev (last_or 0 pre) rest
    → length rest < k
    → length pre + length rest < fuel
    → length pre + length rest < check_depth
    → Finds h fuel p unlinks k n prev pre rest
unfolding find_rounds
find_rounds_lem h fuel p unlinks zero n prev pre rest c adv lt room short = ground arith
find_rounds_lem h fuel p true (suc k) n prev pre [] c adv lt room short = (h, rw adv refl, c)
find_rounds_lem h fuel p false (suc k) n prev pre [] c adv lt room short = (h, rw adv refl, c)
find_rounds_lem h fuel p unlinks (suc k) n prev pre ((a, v) ∷ rest) c adv lt room short =
    let size : length (pre ++ (a, v) ∷ []) ≡ suc (length pre) =
      omega (arith, length-append pre ((a, v) ∷ [])) in
    let q = append_assoc pre ((a, v) ∷ []) rest in
    elim (Bool-cases (v == p)) [
      | inl e ↦ find_here h fuel p unlinks k n prev a v pre rest c adv (omega arith) (omega arith) e
      | inr e ↦
          let adv' = advance-past h fuel a v pre rest c in
          find_later h fuel p unlinks k n prev a v pre rest c adv e (
            find_rounds_lem h fuel p unlinks k a (last_or 0 pre) (pre ++ (a, v) ∷ []) rest (rw q c)
              (rw (q, last_or-append 0 pre a v) adv') (omega arith) (omega arith) (omega arith))
    ]

-- `lrcu_list_find_ptr_unlink` returns: it finds an element if and only if the pointer is among the
-- values, the first such; the list that is left has the values of the list without the first such
-- one, the view that `unlink` has of it.
pub find_ptr_unlink_lem :
    (h : Heap) (fuel lh p : ℕ) (cs : Cells)
    → IsList h lh cs
    → length cs < fuel
    → length cs < check_depth
    → (g : Heap) × (find_ptr_unlink fuel lh p true h ≡ ok ((found p cs, first (without p cs) 0), g))
      × Chain g (without p cs) 0
      × (values (without p cs) ≡ unlink p (values cs))
      × (not (found p cs == 0) ≡ has p (values cs))
unfolding find_ptr_unlink advance
find_ptr_unlink_lem h fuel lh p cs l room short =
    let s =
      find_rounds_lem h fuel p true fuel 0 0 [] cs l.1 refl room (omega arith) (omega arith) in
    (
      s.0,
      rw (check_loop-ok h fuel lh cs l room short, l.0) (s.1),
      s.2,
      values-without p cs,
      found-null h p cs l.1,
    )
