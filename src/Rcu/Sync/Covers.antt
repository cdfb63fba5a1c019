-- ===== src/Rcu/Sync/Covers.antt =====
-- Which versions the threads of a namespace may hold.
use light_rcu.Prelude.{
  ℕ, ◌≤◌, ◌≡◌, refl, ap, subst, Bool, false, not, ◌&&◌, ◌||◌, Option, none, some, List, [], ◌∷◌,
  leb, ◌==◌, ==→eq, update, Bool-cases, inl, inr, All,
}
use light_rcu.Range.{range}
use light_rcu.Range.Spec.{contains}
use light_rcu.Rcu.State.{LocalNs, ThreadInfo}

abbrev pub lns_of : ℕ → Option ThreadInfo → Option LocalNs
lns_of ns_id none = none
lns_of ns_id (some ti) = some (ti.lns ns_id)

-- `ti->lns[ns_id]` of a thread.
abbrev pub lns_at : (ℕ → Option ThreadInfo) → ℕ → ℕ → Option LocalNs
lns_at infos ns_id p = lns_of ns_id (infos p)

-- A thread is in a read section that may hold the version `v` of `current`.
abbrev pub may_hold : ℕ → Option LocalNs → ℕ → Bool
may_hold current none v = false
may_hold current (some l) v = not (l.counter == 0) && contains (range l.version current) v

module _ (infos : ℕ → Option ThreadInfo) (ns_id current : ℕ) where
  -- One of the threads may hold `v`.
  abbrev pub held : List ℕ → ℕ → Bool
  held [] v = false
  held (p ∷ ps) v = may_hold current (lns_at infos ns_id p) v || held ps v

-- A thread is in a read section that began at a version up to `v`.
abbrev pub busy_since : Option LocalNs → ℕ → Bool
busy_since none v = false
busy_since (some l) v = not (l.counter == 0) && leb l.version v

-- The thread's information exists, and a section that it is in began at a version up to `current`.
abbrev pub IsReader : ℕ → Option LocalNs → Type 0
IsReader current none = ⊥
IsReader current (some l) = l.version ≤ current

abbrev pub Readers : (ℕ → Option ThreadInfo) → ℕ → ℕ → List ℕ → Type 0
Readers infos ns_id current ps = All (λ p. IsReader current (lns_at infos ns_id p)) ps

module _ (ns_id current : ℕ) where
  pub reader-info :
      (i : Option ThreadInfo)
      → IsReader current (lns_of ns_id i)
      → (ti : ThreadInfo) × (i ≡ some ti) × ((ti.lns ns_id).version ≤ current)
  reader-info none r = absurd r
  reader-info (some ti) r = (ti, refl, r)

  pub held-eq :
      (f g : ℕ → Option ThreadInfo) (ps : List ℕ) (v : ℕ)
      → ((p : ℕ) → lns_at f ns_id p ≡ lns_at g ns_id p)
      → held f ns_id current ps v ≡ held g ns_id current ps v
  held-eq f g [] v h = refl
  held-eq f g (p ∷ ps) v h = let e = held-eq f g ps v h in rw (h p, e) refl

  pub Readers-eq :
      (f g : ℕ → Option ThreadInfo) (ps : List ℕ)
      → ((p : ℕ) → lns_at f ns_id p ≡ lns_at g ns_id p)
      → Readers f ns_id current ps
      → Readers g ns_id current ps
  Readers-eq f g [] h r = tt
  Readers-eq f g (p ∷ ps) h r = (subst (IsReader current) (h p) r.0, Readers-eq f g ps h r.1)

  pub lns_at-update :
      (f : ℕ → Option ThreadInfo) (p : ℕ) (ti ti' : ThreadInfo)
      → f p ≡ some ti
      → ti'.lns ns_id ≡ ti.lns ns_id
      → (k : ℕ) → lns_at (update f p (some ti')) ns_id k ≡ lns_at f ns_id k
  lns_at-update f p ti ti' e l k = elim (Bool-cases (k == p)) [
    | inl here ↦ rw here (rw (==→eq k p here) (rw e (ap some l)))
    | inr other ↦ rw other refl
  ]
