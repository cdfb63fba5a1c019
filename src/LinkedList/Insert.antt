-- ===== src/LinkedList/Insert.antt =====
-- `lrcu_list_insert` and `__lrcu_list_add`.
use light_rcu.Prelude.{
  ℕ, suc, ◌<◌, ◌≡◌, ◌≢◌, refl, sym, ap, true, false, Option, none, some, ◌∷◌, ◌==◌, if◌then◌else◌,
  update, length, ok, arith, Bool-cases, inl, inr, ==→eq,
}
use light_rcu.LinkedList.{Heap, Elem, elem_of, check_depth, is_null, set_next, insert, add}
use light_rcu.LinkedList.Chain.{Cells, first, on, IsList, Chain-update, set_next-ok}
use light_rcu.LinkedList.Check.{check_loop-ok}

pub update-same : (h : Heap) (a : ℕ) (e : Option Elem) → update h a e a ≡ e
update-same h a e = let z : (a == a) ≡ true = ground arith in rw z refl

pub update-other : (h : Heap) (a b : ℕ) (e : Option Elem) → (b == a) ≡ false → update h a e b ≡ h b
update-other h a b e z = rw z refl

-- The list with an element before it.
pub IsList-cons :
    (h : Heap) (e v lh : ℕ) (cs : Cells)
    → e ≢ 0
    → on e cs ≡ false
    → IsList h lh cs
    → IsList (update h e (some (elem_of lh v))) e ((e, v) ∷ cs)
IsList-cons h e v lh cs ne off l = (
  refl,
  (
    ne,
    rw (l.0) (update-same h e (some (elem_of (first cs 0) v))),
    off,
    Chain-update h cs 0 e (some (elem_of lh v)) l.1 off,
  ),
)

link-same :
    (h : Heap) (e lh : ℕ)
    → if◌then◌else◌ (lh == 0) (set_next e 0) (set_next e lh) h ≡ set_next e lh h
link-same h e lh = elim (Bool-cases (lh == 0)) [
  | inl empty ↦ rw empty (ap (λ (x : ℕ). set_next e x h) (sym (==→eq lh 0 empty)))
  | inr full ↦ rw full refl
]

-- `lrcu_list_insert` of an allocated element that is not on the list returns, links it before the
-- list's first element, and writes to no other.
pub insert_lem :
    (h : Heap) (fuel e q v lh : ℕ) (cs : Cells)
    → e ≢ 0
    → h e ≡ some (elem_of q v)
    → on e cs ≡ false
    → IsList h lh cs
    → suc (length cs) < fuel
    → suc (length cs) < check_depth
    → insert fuel lh e h ≡ ok (e, update h e (some (elem_of lh v)))
unfolding insert is_null
insert_lem h fuel e q v lh cs ne at off l room short =
    let c =
      check_loop-ok (update h e (some (elem_of lh v))) fuel e ((e, v) ∷ cs)
        (IsList-cons h e v lh cs ne off l) room short in
    rw (link-same h e lh, set_next-ok h e q v ne at lh, c) refl

-- `__lrcu_list_add` with an allocation returns the element, which is the new head: the value stands
-- before the others, and no other element is written. Without one it returns `NULL` and changes
-- nothing.
pub add_lem :
    (h : Heap) (fuel e v lh : ℕ) (cs : Cells)
    → e ≢ 0
    → on e cs ≡ false
    → IsList h lh cs
    → suc (length cs) < fuel
    → suc (length cs) < check_depth
    → ((g : Heap) × (add fuel (some e) lh v h ≡ ok ((e, e), g))
        × IsList g e ((e, v) ∷ cs)
        × ((b : ℕ) → (b == e) ≡ false → g b ≡ h b))
      × (add fuel none lh v h ≡ ok ((0, lh), h))
unfolding add
add_lem h fuel e v lh cs ne off l room short =
    let h1 : Heap = update h e (some (elem_of 0 v)) in
    let l1 : IsList h1 lh cs = (l.0, Chain-update h cs 0 e (some (elem_of 0 v)) l.1 off) in
    let s =
      insert_lem h1 fuel e 0 v lh cs ne (update-same h e (some (elem_of 0 v))) off l1 room short in
    let l2 = IsList-cons h1 e v lh cs ne off l1 in
    let c = check_loop-ok (update h1 e (some (elem_of lh v))) fuel e ((e, v) ∷ cs) l2 room short in
    let g : Heap = update h1 e (some (elem_of lh v)) in
    ((g, rw (s, c) refl, l2, λ b z. rw z refl), refl)
