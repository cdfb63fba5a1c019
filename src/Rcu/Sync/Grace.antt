-- ===== src/Rcu/Sync/Grace.antt =====
-- The grace period: which versions `lrcu_rangetree_find` tells to be free in what `__lrcu_get_synchronized`
-- gathered, and what that says of the threads.
use light_rcu.Prelude.{
  ℕ, ◌≤◌, ◌<◌, ◌≡◌, refl, sym, ◌∙◌, Bool, true, false, ◌⊎◌, inl, inr, Option, none, some, List, [],
  ◌∷◌, ◌==◌, ==→eq, ==→ne, if◌then◌else◌, ok, Bool-cases, arith, All,
}
use light_rcu.Range.{RangeTree, live, find}
use light_rcu.Range.Spec.{covers, contains, IsDisjoint}
use light_rcu.Range.Merge.{IsTree}
use light_rcu.Range.Search.{find-covers, find-empty}
use light_rcu.Rcu.State.{LocalNs, ThreadInfo}
use light_rcu.Rcu.Sync.Covers.{lns_at, may_hold, held, IsReader, Readers}

-- What `lrcu_rangetree_find` answers: the cover of the tree, or what was left in slot 0.
abbrev pub answer : RangeTree → ℕ → Bool
answer t v = if t.len == 0 then contains (t.r 0) v else covers (live t) v

pub find-answer :
    (t : RangeTree) (v : ℕ)
    → IsTree t
    → IsDisjoint (live t)
    → 0 < t.capacity
    → find t v ≡ ok (answer t v)
find-answer t v h d room = elim (Bool-cases (t.len == 0)) [
  | inl empty ↦ rw empty (find-empty t v (==→eq t.len 0 empty) room)
  | inr more ↦ rw more (find-covers t v (omega (arith, ==→ne t.len 0 more)) h.fits d)
]

-- The thread is in no section, or in one that began after the version `v`.
abbrev pub Passed : ℕ → Option LocalNs → Type 0
Passed v none = ⊥
Passed v (some l) = (l.counter ≡ 0) ⊎ (v < l.version)

pub Passed-may_hold :
    (current v : ℕ) (i : Option LocalNs)
    → IsReader current i
    → v ≤ current
    → may_hold current i v ≡ false
    → Passed v i
Passed-may_hold current v none r le h = r
Passed-may_hold current v (some l) r le h = elim (Bool-cases (l.counter == 0)) [
  | inl idle ↦ inl (==→eq l.counter 0 idle)
  | inr busy ↦ inr (ground arith)
]

pub All-Passed :
    (infos : ℕ → Option ThreadInfo) (ns_id current v : ℕ) (ps : List ℕ)
    → Readers infos ns_id current ps
    → v ≤ current
    → held infos ns_id current ps v ≡ false
    → All (λ p. Passed v (lns_at infos ns_id p)) ps
All-Passed infos ns_id current v [] r le h = tt
All-Passed infos ns_id current v (p ∷ ps) r le h = (
  Passed-may_hold current v (lns_at infos ns_id p) r.0 le (ground arith),
  All-Passed infos ns_id current v ps r.1 le (ground arith),
)

pub empty-covers : (t : RangeTree) (v : ℕ) → t.len ≡ 0 → covers (live t) v ≡ false
empty-covers t v e = rw e refl

pub answer-safe : (t : RangeTree) (v : ℕ) → answer t v ≡ false → covers (live t) v ≡ false
answer-safe t v h = elim (Bool-cases (t.len == 0)) [
  | inl empty ↦ empty-covers t v (==→eq t.len 0 empty)
  | inr more ↦ let e : answer t v ≡ covers (live t) v = rw more refl in sym e ∙ h
]

pub answer-exact :
    (t : RangeTree) (v w : ℕ) → covers (live t) w ≡ true → answer t v ≡ covers (live t) v
answer-exact t v w h = elim (Bool-cases (t.len == 0)) [
  | inl empty ↦ let e = empty-covers t w (==→eq t.len 0 empty) in cc
  | inr more ↦ rw more refl
]

pub not-true : {a b : Bool} → (a ≡ true → b ≡ true) → b ≡ false → a ≡ false
not-true {a = true} f h = let e = f refl in cc
not-true {a = false} f h = refl
