-- ===== src/Range/Spec.antt =====
-- What a list of ranges stands for, independently of the array: the set of versions that it covers,
-- and merging as a function on lists.
use light_rcu.Prelude.{
  ℕ, ◌+◌, ◌≤◌, ◌≡◌, refl, Bool, true, false, ◌&&◌, ◌||◌, List, [], ◌∷◌, ltb, leb, if◌then◌else◌,
  arith, Bool-cases, All, ltb→lt, inl, inr,
}
use light_rcu.Range.{Range, range}

abbrev pub contains : Range → ℕ → Bool
contains x v = leb x.minv v && leb v x.maxv

abbrev pub covers : List Range → ℕ → Bool
covers [] v = false
covers (x ∷ xs) v = contains x v || covers xs v

-- The lower ends ascend, from `lo` on.
abbrev pub AscendsFrom : ℕ → List Range → Type 0
AscendsFrom lo [] = Unit
AscendsFrom lo (x ∷ xs) = (lo ≤ x.minv) × AscendsFrom x.minv xs

abbrev pub Ascends : List Range → Type 0
Ascends xs = AscendsFrom 0 xs

-- No range is empty.
abbrev pub IsProper : Range → Type 0
IsProper x = x.minv ≤ x.maxv

-- Each range is not empty and ends below the next one; `lo` is at most where they begin.
abbrev pub DisjointFrom : ℕ → List Range → Type 0
DisjointFrom lo [] = Unit
DisjointFrom lo (x ∷ xs) = (lo ≤ x.minv) × (x.minv ≤ x.maxv) × DisjointFrom (x.maxv + 1) xs

abbrev pub IsDisjoint : List Range → Type 0
IsDisjoint xs = DisjointFrom 0 xs

abbrev pub larger : ℕ → ℕ → ℕ
larger a b = if ltb a b then b else a

-- `x` followed by `ys`, with each range that begins in the one before it joined to that one.
unfoldable pub merge_from : Range → List Range → List Range
merge_from x [] = x ∷ []
merge_from x (y ∷ ys) = elim (ltb x.maxv y.minv) [
  | true ↦ x ∷ merge_from y ys
  | false ↦ merge_from (range x.minv (larger x.maxv y.maxv)) ys
]

pub merge_from-apart :
    (x y : Range) (ys : List Range)
    → ltb x.maxv y.minv ≡ true
    → merge_from x (y ∷ ys) ≡ x ∷ merge_from y ys
unfolding merge_from
merge_from-apart x y ys h = ground arith

pub merge_from-meet :
    (x y : Range) (ys : List Range)
    → ltb x.maxv y.minv ≡ false
    → merge_from x (y ∷ ys) ≡ merge_from (range x.minv (larger x.maxv y.maxv)) ys
unfolding merge_from
merge_from-meet x y ys h = ground arith

unfoldable pub merge : List Range → List Range
unfolding merge_from
merge [] = []
merge (x ∷ xs) = merge_from x xs

pub AscendsFrom-le : (a b : ℕ) (zs : List Range) → a ≤ b → AscendsFrom b zs → AscendsFrom a zs
AscendsFrom-le a b [] p q = tt
AscendsFrom-le a b (z ∷ zs) p q = (omega arith, q.1)

-- Merging keeps the set of versions.
covers-merge_from :
    (v : ℕ) (x : Range) (ys : List Range)
    → AscendsFrom x.minv ys
    → covers (merge_from x ys) v ≡ (contains x v || covers ys v)
unfolding merge_from
covers-merge_from v x [] h = refl
covers-merge_from v x (y ∷ ys) h =
    let x' = range x.minv (larger x.maxv y.maxv) in
    ground (
      arith,
      covers-merge_from v y ys h.1,
      covers-merge_from v x' ys,
      AscendsFrom-le x.minv y.minv ys h.0 h.1,
    )

pub covers-merge : (v : ℕ) (xs : List Range) → Ascends xs → covers (merge xs) v ≡ covers xs v
unfolding merge
covers-merge v [] h = refl
covers-merge v (x ∷ xs) h = covers-merge_from v x xs h.1

DisjointFrom-merge_from :
    (lo : ℕ) (x : Range) (ys : List Range)
    → lo ≤ x.minv
    → IsProper x
    → AscendsFrom x.minv ys
    → All IsProper ys
    → DisjointFrom lo (merge_from x ys)
DisjointFrom-merge_from lo x [] l p h ps = unfold merge_from in (l, p, tt)
DisjointFrom-merge_from lo x (y ∷ ys) l p h ps = elim (Bool-cases (ltb x.maxv y.minv)) [
  | inl apart ↦ rw (merge_from-apart x y ys apart) (
    l,
    p,
    DisjointFrom-merge_from (x.maxv + 1) y ys (omega (arith, ltb→lt x.maxv y.minv apart)) ps.0 h.1
        ps.1,
  )
  | inr meet ↦ rw (merge_from-meet x y ys meet) (
      DisjointFrom-merge_from lo (range x.minv (larger x.maxv y.maxv)) ys l (ground arith)
        (AscendsFrom-le x.minv y.minv ys h.0 h.1) ps.1)
]

pub merge-IsDisjoint : (xs : List Range) → Ascends xs → All IsProper xs → IsDisjoint (merge xs)
unfolding merge
merge-IsDisjoint [] h ps = tt
merge-IsDisjoint (x ∷ xs) h ps = DisjointFrom-merge_from 0 x xs h.0 ps.0 h.1 ps.1
