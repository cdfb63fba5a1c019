-- ===== src/OldList/Loops.antt =====
-- The loops of src/list.h on lists that end: `lrcu_list_check_loop`, and the iteration.
use light_rcu.Prelude.{
  ℕ, zero, suc, ◌+◌, ◌<◌, ◌≡◌, refl, Bool, true, false, ◌&&◌, [], ◌∷◌, ltb, ◌==◌, if◌then◌else◌,
  length, ok, arith,
}
use light_rcu.LinkedList.{Heap, check_depth}
use light_rcu.LinkedList.Chain.{Cells, first, on, Chain, IsList, load-ok}
use light_rcu.LinkedList.Check.{off-first, null-off, mark-off}
use light_rcu.OldList.{check_rounds, check_loop, advance, find_rounds, find_ptr_unlink}

check_rounds_lem :
    (h : Heap) (cs : Cells) (k cnt t : ℕ)
    → Chain h cs 0
    → on t cs ≡ false
    → length cs < k
    → check_rounds k (first cs 0) cnt t h ≡ ok (tt, h)
unfolding check_rounds
check_rounds_lem h [] (suc k) cnt t c off lt = refl
check_rounds_lem h [] zero cnt t c off lt = ground arith
check_rounds_lem h ((a, v) ∷ cs) zero cnt t c off lt = ground arith
check_rounds_lem h ((a, v) ∷ cs) (suc k) cnt t c off lt =
    let z : (a == 0) ≡ false = ground (arith, c.0) in
    let l = load-ok h a (first cs 0) v c.0 c.1 in
    let d = off-first a cs c.0 c.2 in
    let e : (a == t) ≡ false = ground arith in
    let o : on t cs ≡ false = ground arith in
    let r =
      check_rounds_lem h cs k (cnt + 1) (if ltb check_depth (cnt + 1) && (t == 0) then a else t) c.3
        (mark-off a t (ltb check_depth (cnt + 1) && (t == 0)) cs c.2 o) (omega arith) in
    rw (z, l, d, e, r) refl

-- On a list that ends, of any length, `lrcu_list_check_loop` passes.
pub check_loop-ok :
    (h : Heap) (fuel lh : ℕ) (cs : Cells)
    → IsList h lh cs
    → length cs < fuel
    → check_loop fuel lh h ≡ ok (tt, h)
unfolding check_loop
check_loop-ok h fuel lh cs l lt =
    let r = check_rounds_lem h cs fuel 0 0 l.1 (null-off h cs 0 l.1) lt in rw (l.0) r

-- Whatever stands on the heap and whatever the head is, a search for a pointer ends in its first round
-- without a look at any element: it gives `NULL`, and unlinks nothing. The iteration takes `n ==
-- lh->head`, as it starts, to be its end.
pub find_ptr_unlink-none :
    (h : Heap) (k lh p : ℕ) (unlinks : Bool)
    → find_ptr_unlink (suc k) lh p unlinks h ≡ ok ((0, lh), h)
unfolding find_ptr_unlink find_rounds advance
find_ptr_unlink-none h k lh p unlinks = let same : (lh == lh) ≡ true = ground arith in rw same refl
