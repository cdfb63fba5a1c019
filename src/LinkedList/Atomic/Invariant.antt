-- ===== src/LinkedList/Atomic/Invariant.antt =====
-- The lists on the heap while threads insert: the shared one, and the one that was taken.
use light_rcu.Prelude.{
  ℕ, ◌≡◌, ◌≢◌, inl, inr, refl, sym, ◌∙◌, ap, subst, Bool, true, false, Option, none, some, [], ◌∷◌,
  ◌==◌, update, arith, Bool-cases, ==→eq,
}
use light_rcu.LinkedList.{Heap, Elem, elem_of}
use light_rcu.LinkedList.Chain.{Cells, first, on, Chain}
use light_rcu.LinkedList.Insert.{update-other}
use light_rcu.LinkedList.Atomic.{
  InsertPc, away, made, linking, swapping, ResetPc, resting, taking, took, Shared,
}

-- The element that a thread has not yet inserted, or 0.
abbrev pub owner : InsertPc → ℕ
owner away = 0
owner (made e v) = e
owner (linking e v t) = e
owner (swapping e v t) = e

-- An element with a link and a value that is on none of the lists.
abbrev pub Loose : Heap → Cells → Cells → ℕ → ℕ → ℕ → Type 0
Loose h xs ys e q v = (e ≢ 0) × (h e ≡ some (elem_of q v)) × (on e xs ≡ false) × (on e ys ≡ false)

abbrev pub Owns : Heap → Cells → Cells → InsertPc → Type 0
Owns h xs ys away = Unit
Owns h xs ys (made e v) = Loose h xs ys e 0 v
Owns h xs ys (linking e v t) = (q : ℕ) × Loose h xs ys e q v
Owns h xs ys (swapping e v t) = Loose h xs ys e t v

abbrev pub Batch : ResetPc → Cells → Type 0
Batch resting ys = ys ≡ []
Batch (taking t) ys = ys ≡ []
Batch (took t) ys = t ≡ first ys 0

-- The shared list is `xs`, the list taken is `ys`.
pub record Holds (s : Shared) (xs ys : Cells) : Type 0 where
  pub head_ok : s.head ≡ first xs 0
  pub stack : Chain s.heap xs 0
  pub batch : Chain s.heap ys 0
  pub apart : (a : ℕ) → on a xs ≡ true → on a ys ≡ false
  pub taker_ok : Batch s.taker ys
  pub owned : (i : ℕ) → Owns s.heap xs ys (s.pcs i)
  pub single : (i j : ℕ) → owner (s.pcs i) ≢ 0 → owner (s.pcs i) ≡ owner (s.pcs j) → i ≡ j

abbrev allocated : Option Elem → Bool
allocated none = false
allocated (some e) = true

not_none : {o : Option Elem} {e : Elem} → o ≡ some e → o ≡ none → true ≡ false
not_none p q = ap allocated (sym p ∙ q)

pub Chain-free :
    (h : Heap) (cs : Cells) (stop a : ℕ) → Chain h cs stop → h a ≡ none → on a cs ≡ false
Chain-free h [] stop a c e = refl
Chain-free h ((b, v) ∷ cs) stop a c e = elim (Bool-cases (a == b)) [
  | inl same ↦
      let z = not_none c.1 (subst (λ (x : ℕ). h x ≡ none) (==→eq a b same) e) in ground arith
  | inr other ↦ ground (arith, Chain-free h cs stop a c.3 e)
]

pub Owns-update :
    (h : Heap) (xs ys : Cells) (p : InsertPc) (e : ℕ) (x : Option Elem)
    → Owns h xs ys p
    → (owner p == e) ≡ false
    → Owns (update h e x) xs ys p
Owns-update h xs ys away e x o z = tt
Owns-update h xs ys (made b v) e x o z = (o.0, update-other h e b x z ∙ o.1, o.2, o.3)
Owns-update h xs ys (linking b v t) e x o z =
    (o.0, (o.1.0, update-other h e b x z ∙ o.1.1, o.1.2, o.1.3))
Owns-update h xs ys (swapping b v t) e x o z = (o.0, update-other h e b x z ∙ o.1, o.2, o.3)

Loose-free :
    (h : Heap) (xs ys : Cells) (b q v e : ℕ) → Loose h xs ys b q v → h e ≡ none → (b == e) ≡ false
Loose-free h xs ys b q v e o z = elim (Bool-cases (b == e)) [
  | inl same ↦
      let k = not_none o.1 (subst (λ (x : ℕ). h x ≡ none) (sym (==→eq b e same)) z) in ground arith
  | inr other ↦ other
]

-- A fresh element is not one that a thread has.
pub Owns-free :
    (h : Heap) (xs ys : Cells) (p : InsertPc) (e : ℕ)
    → Owns h xs ys p
    → e ≢ 0
    → h e ≡ none
    → (owner p == e) ≡ false
Owns-free h xs ys away e o ne z = ground arith
Owns-free h xs ys (made b v) e o ne z = Loose-free h xs ys b 0 v e o z
Owns-free h xs ys (linking b v t) e o ne z = Loose-free h xs ys b o.0 v e o.1 z
Owns-free h xs ys (swapping b v t) e o ne z = Loose-free h xs ys b t v e o z

-- The lists may change where the element is on neither.
pub Owns-lists :
    (h : Heap) (xs ys us vs : Cells) (p : InsertPc)
    → ((b : ℕ)
        → b ≡ owner p
        → on b xs ≡ false
        → on b ys ≡ false
        → (on b us ≡ false) × (on b vs ≡ false))
    → Owns h xs ys p
    → Owns h us vs p
Owns-lists h xs ys us vs away f o = tt
Owns-lists h xs ys us vs (made b v) f o = let k = f b refl o.2 o.3 in (o.0, o.1, k.0, k.1)
Owns-lists h xs ys us vs (linking b v t) f o =
    let k = f b refl o.1.2 o.1.3 in (o.0, (o.1.0, o.1.1, k.0, k.1))
Owns-lists h xs ys us vs (swapping b v t) f o = let k = f b refl o.2 o.3 in (o.0, o.1, k.0, k.1)
