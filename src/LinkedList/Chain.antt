-- ===== src/LinkedList/Chain.antt =====
-- The list that stands on the heap from an element on: the addresses and values, in order.
use light_rcu.Prelude.{
  ℕ, ◌≡◌, ◌≢◌, refl, sym, subst, ◌∙◌, Bool, true, false, ◌||◌, Option, none, some, List, [], ◌∷◌,
  ◌++◌, ◌==◌, update, ok, arith, Bool-cases, inl, inr, ==→eq,
}
use light_rcu.LinkedList.{Elem, elem_of, Heap, load, set_next, free}

abbrev pub Cells : Type 0
Cells = List (ℕ × ℕ)

-- Where a list begins that goes on with `stop`, and its last element, or else `e`.
abbrev pub first : Cells → ℕ → ℕ
first [] stop = stop
first ((a, v) ∷ cs) stop = a

abbrev pub last_or : ℕ → Cells → ℕ
last_or e [] = e
last_or e ((a, v) ∷ cs) = last_or a cs

abbrev pub on : ℕ → Cells → Bool
on a [] = false
on a ((b, v) ∷ cs) = (a == b) || on a cs

-- The elements are linked in order, are all different, and the last one points to `stop`.
abbrev pub Chain : Heap → Cells → ℕ → Type 0
Chain h [] stop = Unit
Chain h ((a, v) ∷ cs) stop =
    (a ≢ 0) × (h a ≡ some (elem_of (first cs stop) v)) × (on a cs ≡ false) × Chain h cs stop

-- The list with a given head.
abbrev pub IsList : Heap → ℕ → Cells → Type 0
IsList h lh cs = (lh ≡ first cs 0) × Chain h cs 0

pub on-append : (a : ℕ) (xs ys : Cells) → on a (xs ++ ys) ≡ (on a xs || on a ys)
on-append a [] ys = refl
on-append a ((b, v) ∷ xs) ys = ground (arith, on-append a xs ys)

pub first-append : (xs ys : Cells) (stop : ℕ) → first (xs ++ ys) stop ≡ first xs (first ys stop)
first-append [] ys stop = refl
first-append ((a, v) ∷ xs) ys stop = refl

pub last_or-append : (e : ℕ) (xs : Cells) (a v : ℕ) → last_or e (xs ++ (a, v) ∷ []) ≡ a
last_or-append e [] a v = refl
last_or-append e ((b, w) ∷ xs) a v = last_or-append b xs a v

module _ (h : Heap) where
  pub Chain-frame :
      (g : Heap) (cs : Cells) (stop : ℕ)
      → Chain h cs stop
      → ((a : ℕ) → on a cs ≡ true → g a ≡ h a)
      → Chain g cs stop
  Chain-frame g [] stop c same = tt
  Chain-frame g ((a, v) ∷ cs) stop c same = (
    c.0,
    same a (ground arith) ∙ c.1,
    c.2,
    Chain-frame g cs stop c.3 (λ b k. same b (ground arith)),
  )

  -- A write elsewhere.
  pub Chain-update :
      (cs : Cells) (stop p : ℕ) (e : Option Elem)
      → Chain h cs stop
      → on p cs ≡ false
      → Chain (update h p e) cs stop
  Chain-update cs stop p e c off = Chain-frame (update h p e) cs stop c (λ a k.
      elim (Bool-cases (a == p)) [
        | inl same ↦
            let s = ==→eq a p same in
            let k' : on p cs ≡ true = subst (λ (x : ℕ). on x cs ≡ true) s k in cc
        | inr other ↦ rw other refl
      ])

  pub Chain-append :
      (xs ys : Cells) (stop : ℕ)
      → Chain h xs (first ys stop)
      → Chain h ys stop
      → ((a : ℕ) → on a xs ≡ true → on a ys ≡ false)
      → Chain h (xs ++ ys) stop
  Chain-append [] ys stop c d apart = d
  Chain-append ((a, v) ∷ xs) ys stop c d apart = (
    c.0,
    rw (first-append xs ys stop) c.1,
    ground (arith, on-append a xs ys, apart a),
    Chain-append xs ys stop c.3 d (λ b k. apart b (ground arith)),
  )

  pub Chain-left : (xs ys : Cells) (stop : ℕ) → Chain h (xs ++ ys) stop → Chain h xs (first ys stop)
  Chain-left [] ys stop c = tt
  Chain-left ((a, v) ∷ xs) ys stop c = (
    c.0,
    rw (first-append xs ys stop) at (c.1),
    ground (arith, on-append a xs ys),
    Chain-left xs ys stop c.3,
  )

  pub Chain-right : (xs ys : Cells) (stop : ℕ) → Chain h (xs ++ ys) stop → Chain h ys stop
  Chain-right [] ys stop c = c
  Chain-right ((a, v) ∷ xs) ys stop c = Chain-right xs ys stop c.3

  pub Chain-apart :
      (xs ys : Cells) (stop : ℕ)
      → Chain h (xs ++ ys) stop
      → (a : ℕ) → on a xs ≡ true
      → on a ys ≡ false
  Chain-apart ((b, v) ∷ xs) ys stop c a k = elim (Bool-cases (a == b)) [
    | inl same ↦
        let e = ==→eq a b same in
        subst (λ (x : ℕ). on x ys ≡ false) (sym e) (ground (arith, on-append b xs ys))
    | inr other ↦ Chain-apart xs ys stop c.3 a (ground arith)
  ]
  Chain-apart [] ys stop c a k = cc

module _ (h : Heap) (p q v : ℕ) (ne : p ≢ 0) (e : h p ≡ some (elem_of q v)) where
  pub load-ok : load p h ≡ ok (elem_of q v, h)
  unfolding load
  load-ok = let z : (p == 0) ≡ false = ground arith in rw (z, e) refl

  pub set_next-ok : (r : ℕ) → set_next p r h ≡ ok (tt, update h p (some (elem_of r v)))
  unfolding set_next
  set_next-ok r = rw load-ok refl

  pub free-ok : free p h ≡ ok (tt, update h p none)
  unfolding free
  free-ok = rw load-ok refl
