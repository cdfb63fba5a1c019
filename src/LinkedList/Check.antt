-- ===== src/LinkedList/Check.antt =====
-- `lrcu_list_check_loop` on a list that ends.
use light_rcu.Prelude.{
  ℕ, zero, suc, ◌+◌, ◌<◌, ◌≡◌, ◌≢◌, refl, Bool, true, false, ◌&&◌, [], ◌∷◌, ltb, ◌==◌,
  if◌then◌else◌, length, ok, arith, lt→ltb,
}
use light_rcu.Prelude.Commands.{ensure}
use light_rcu.LinkedList.{Heap, check_depth, check_rounds, check_loop}
use light_rcu.LinkedList.Chain.{Cells, first, on, Chain, IsList, load-ok}

pub off-first : (a : ℕ) (cs : Cells) → a ≢ 0 → on a cs ≡ false → (a == first cs 0) ≡ false
off-first a [] ne off = ground arith
off-first a ((b, v) ∷ cs) ne off = ground arith

pub null-off : (h : Heap) (cs : Cells) (stop : ℕ) → Chain h cs stop → on 0 cs ≡ false
null-off h [] stop c = refl
null-off h ((a, v) ∷ cs) stop c = ground (arith, c.0, null-off h cs stop c.3)

pub mark-off :
    (a t : ℕ) (b : Bool) (cs : Cells)
    → on a cs ≡ false
    → on t cs ≡ false
    → on (if b then a else t) cs ≡ false
mark-off a t true cs p q = p
mark-off a t false cs p q = q

check_rounds_lem :
    (h : Heap) (cs : Cells) (k cnt t : ℕ)
    → Chain h cs 0
    → on t cs ≡ false
    → length cs < k
    → check_rounds k (first cs 0) cnt t h ≡ ensure (ltb (cnt + length cs) check_depth) h
unfolding check_rounds
check_rounds_lem h [] (suc k) cnt t c off lt = let z : cnt + 0 ≡ cnt = omega arith in rw z refl
check_rounds_lem h [] zero cnt t c off lt = ground arith
check_rounds_lem h ((a, v) ∷ cs) zero cnt t c off lt = ground arith
check_rounds_lem h ((a, v) ∷ cs) (suc k) cnt t c off lt =
    let z : (a == 0) ≡ false = ground (arith, c.0) in
    let l = load-ok h a (first cs 0) v c.0 c.1 in
    let d = off-first a cs c.0 c.2 in
    let e : (a == t) ≡ false = ground arith in
    let o : on t cs ≡ false = ground arith in
    let r =
      check_rounds_lem h cs k (cnt + 1) (if ltb check_depth (cnt + 1) && (t == 0) then a else t) c.3
        (mark-off a t (ltb check_depth (cnt + 1) && (t == 0)) cs c.2 o) (omega arith) in
    let s : cnt + suc (length cs) ≡ cnt + 1 + length cs = omega arith in rw (z, l, d, e, r, s) refl

-- On a list that ends, `lrcu_list_check_loop` changes nothing, and passes if and only if the list has
-- fewer than 100000 elements: its last assertion fails for a longer one.
pub check_loop_lem :
    (h : Heap) (fuel lh : ℕ) (cs : Cells)
    → IsList h lh cs
    → length cs < fuel
    → check_loop fuel lh h ≡ ensure (ltb (length cs) check_depth) h
unfolding check_loop
check_loop_lem h fuel lh cs l lt =
    let z : 0 + length cs ≡ length cs = omega arith in
    let r = check_rounds_lem h cs fuel 0 0 l.1 (null-off h cs 0 l.1) lt in rw (l.0) (rw z at r)

pub check_loop-ok :
    (h : Heap) (fuel lh : ℕ) (cs : Cells)
    → IsList h lh cs
    → length cs < fuel
    → length cs < check_depth
    → check_loop fuel lh h ≡ ok (tt, h)
check_loop-ok h fuel lh cs l room short =
    rw (check_loop_lem h fuel lh cs l room, lt→ltb (length cs) check_depth short) refl
