-- ===== src/OldList/Unlink.antt =====
-- `lrcu_list_unlink_next` of src/list.h behind an element.
use light_rcu.Prelude.{
  ℕ, suc, ◌<◌, ◌≡◌, refl, false, some, [], ◌∷◌, ◌++◌, ◌==◌, update, length, length-append, ok,
  arith,
}
use light_rcu.LinkedList.{Heap, elem_of}
use light_rcu.LinkedList.Chain.{
  Cells, first, first-append, Chain, Chain-update, Chain-append, Chain-left, Chain-right,
  Chain-apart, load-ok, set_next-ok,
}
use light_rcu.LinkedList.Insert.{update-same}
use light_rcu.LinkedList.Unlink.{Chain-off}
use light_rcu.OldList.{unlink_next}
use light_rcu.OldList.Loops.{check_loop-ok}

module _ (h : Heap) (a v p w : ℕ) (xs rest : Cells)
    (c : Chain h (xs ++ (p, w) ∷ (a, v) ∷ rest) 0) where
  -- The heap after `t->next = NULL` and `e->next = t->next`.
  abbrev cut : Heap
  cut = update (update h a (some (elem_of 0 v))) p (some (elem_of 0 w))

  cut-Chain : Chain cut (xs ++ (p, w) ∷ []) 0
  cut-Chain =
      let tail : Cells = (p, w) ∷ (a, v) ∷ rest in
      let h1 : Heap = update h a (some (elem_of 0 v)) in
      let r = Chain-right h xs tail 0 c in
      let left =
        Chain-update h xs p a (some (elem_of 0 v)) (Chain-left h xs tail 0 c)
          (Chain-off h xs tail 0 c a (ground arith)) in
      Chain-append cut xs ((p, w) ∷ []) 0
        (Chain-update h1 xs p p (some (elem_of 0 w)) left
          (Chain-off h xs tail 0 c p (ground arith)))
        (r.0, update-same h1 p (some (elem_of 0 w)), refl, tt)
        (λ b k. let z = Chain-apart h xs tail 0 c b k in ground arith)

  -- Where `lrcu_list_unlink_next` is to take off the element behind `p`, it returns with a list that
  -- ends at `p`: what came behind the element taken off is lost with it, and no element points to it any
  -- more.
  pub unlink_next-cut :
      (fuel : ℕ)
      → suc (length xs) < fuel
      → (g : Heap) × (unlink_next fuel (first (xs ++ (p, w) ∷ (a, v) ∷ rest) 0) p h
          ≡ ok (first (xs ++ (p, w) ∷ []) 0, g))
        × Chain g (xs ++ (p, w) ∷ []) 0
        × (g a ≡ some (elem_of 0 v))
  unfolding unlink_next
  unlink_next-cut fuel room =
      let r = Chain-right h xs ((p, w) ∷ (a, v) ∷ rest) 0 c in
      let h1 : Heap = update h a (some (elem_of 0 v)) in
      let p_a : (p == a) ≡ false = ground (arith, r.2) in
      let a_p : (a == p) ≡ false = ground (arith, r.2) in
      let at_p : h1 p ≡ some (elem_of a w) = rw p_a (r.1) in
      let zp : (p == 0) ≡ false = ground (arith, r.0) in
      let za : (a == 0) ≡ false = ground (arith, r.3.0) in
      let size : length (xs ++ (p, w) ∷ []) ≡ suc (length xs) =
        omega (arith, length-append xs ((p, w) ∷ [])) in
      let k =
        check_loop-ok cut fuel (first (xs ++ (p, w) ∷ []) 0) (xs ++ (p, w) ∷ []) (refl, cut-Chain)
          (omega arith) in
      let k' = rw (first-append xs ((p, w) ∷ []) 0) at k in
      (
        cut,
        rw (first-append xs ((p, w) ∷ (a, v) ∷ rest) 0, first-append xs ((p, w) ∷ []) 0)
            (rw
              (
                zp,
                load-ok h p a w r.0 r.1,
                za,
                set_next-ok h a (first rest 0) v r.3.0 r.3.1 0,
                load-ok h1 a 0 v r.3.0 (update-same h a (some (elem_of 0 v))),
                set_next-ok h1 p a w r.0 at_p 0,
                k',
              )
              refl),
        cut-Chain,
        rw a_p (update-same h a (some (elem_of 0 v))),
      )
