-- ===== src/Rcu/Sync/Visits.antt =====
-- The first loop of `__lrcu_get_synchronized`, over the threads: which versions the tree that it builds
-- covers.
use light_rcu.Prelude.{
  ℕ, ◌+◌, ◌≤◌, ◌<◌, ◌≡◌, refl, sym, ◌∙◌, ap, Bool, true, false, ◌||◌, some, List, [], ◌∷◌, ◌==◌,
  ==→eq, if◌then◌else◌, update, ok, Bool-cases, inl, inr, arith, length, All,
}
use light_rcu.Qsort.{Qsort}
use light_rcu.Range.{Range, range, live, empty_value, add}
use light_rcu.Range.Spec.{contains, covers}
use light_rcu.Range.Merge.{IsTree}
use light_rcu.Range.Add.{Added, appended, add-room}
use light_rcu.Rcu.State.{ThreadInfo}
use light_rcu.Rcu.Sync.{Scan, hangs, busy_info, idle_info, scan_threads}
use light_rcu.Rcu.Sync.Covers.{
  lns_at, may_hold, held, held-eq, Readers, Readers-eq, reader-info, lns_at-update,
}

or-chain :
    (a b : Bool) {x y z h m : Bool}
    → x ≡ (y || z)
    → y ≡ (a || b)
    → z ≡ h
    → m ≡ b
    → x ≡ (a || (m || h))
or-chain true b e f g k = e ∙ ground arith
or-chain false true e f g k = ground arith
or-chain false false e f g k = ground arith

module _ (ns_id current : ℕ) where
  -- The first loop, from the state `s`.
  pub record Scanned (ps : List ℕ) (s : Scan) (out : List ℕ × Scan) : Type 1 where
    pub tree : IsTree out.1.tree
    pub grows : out.1.tree.len ≤ s.tree.len + length ps
    pub same_capacity : out.1.tree.capacity ≡ s.tree.capacity
    pub same_lns : (k : ℕ) → lns_at out.1.infos ns_id k ≡ lns_at s.infos ns_id k
    pub cover :
        (v : ℕ)
        → covers (live out.1.tree) v ≡ (covers (live s.tree) v || held s.infos ns_id current ps v)
    pub counts : length out.0 + length out.1.hung ≡ length ps + length s.hung
    pub hung_all : (P : ℕ → Type 0) → All P ps → All P s.hung → All P out.1.hung

module _ (q : Qsort Range) (ns_id current : ℕ) (small : current < empty_value) (now : ℕ → ℕ) where
  abbrev pub after_idle : ℕ → ThreadInfo → Scan → Scan
  after_idle p ti s = record s { infos = update s.infos p (some (idle_info ns_id ti)) }

  abbrev after_busy : ℕ → ThreadInfo → Scan → Scan
  after_busy p ti s = record {
    tree = appended s.tree (ti.lns ns_id).version current;
    infos = update s.infos p (some (busy_info ns_id current (now p) ti));
    hung = if hangs ns_id (now p) ti then p ∷ s.hung else s.hung;
  }

  pub scan_threads-idle :
      (p : ℕ) (ps : List ℕ) (s : Scan) {ti : ThreadInfo} {out : List ℕ × Scan}
      → s.infos p ≡ some ti
      → (ti.lns ns_id).counter ≡ 0
      → scan_threads q ns_id current now ps (after_idle p ti s) ≡ ok out
      → scan_threads q ns_id current now (p ∷ ps) s ≡ ok (p ∷ out.0, out.1)
  unfolding scan_threads
  scan_threads-idle p ps s e c r = rw (e, scan_threads) (rw c (rw r refl))

  scan_threads-busy :
      (p : ℕ) (ps : List ℕ) (s : Scan) {ti : ThreadInfo} {out : List ℕ × Scan}
      → s.infos p ≡ some ti
      → ((ti.lns ns_id).counter == 0) ≡ false
      → add q s.tree (ti.lns ns_id).version current
        ≡ ok (appended s.tree (ti.lns ns_id).version current)
      → scan_threads q ns_id current now ps (after_busy p ti s) ≡ ok out
      → scan_threads q ns_id current now (p ∷ ps) s
        ≡ ok (if hangs ns_id (now p) ti then out.0 else p ∷ out.0, out.1)
  unfolding scan_threads
  scan_threads-busy p ps s e c a r = rw (e, scan_threads) (rw c (rw a (rw r refl)))

  -- One thread more, by what the rest of the loop does.
  Scanned-idle :
      (p : ℕ) (ps : List ℕ) (s : Scan) (ti : ThreadInfo) (out : List ℕ × Scan)
      → s.infos p ≡ some ti
      → (ti.lns ns_id).counter ≡ 0
      → Scanned ns_id current ps (after_idle p ti s) out
      → Scanned ns_id current (p ∷ ps) s (p ∷ out.0, out.1)
  unfolding idle_info
  Scanned-idle p ps s ti out e c d =
      let same = lns_at-update ns_id current s.infos p ti (idle_info ns_id ti) e refl in
      let quiet : may_hold current (lns_at s.infos ns_id p) ≡ (λ (v : ℕ). false) =
        rw e (rw c refl) in
      record {
        tree = d.tree;
        grows = omega (arith, d.grows);
        same_capacity = d.same_capacity;
        same_lns = λ k. d.same_lns k ∙ same k;
        cover = λ v.
            d.cover v
            ∙ ap (λ b. covers (live s.tree) v || b)
                (held-eq ns_id current _ s.infos ps v same
                  ∙ sym (ap (λ (f : ℕ → Bool). f v || held s.infos ns_id current ps v) quiet));
        counts = omega (arith, d.counts);
        hung_all = λ P xs hs. d.hung_all P xs.1 hs;
      }

  Scanned-busy :
      (p : ℕ) (ps : List ℕ) (s : Scan) (ti : ThreadInfo) (out : List ℕ × Scan)
      → s.infos p ≡ some ti
      → ((ti.lns ns_id).counter == 0) ≡ false
      → Added s.tree (ti.lns ns_id).version current (appended s.tree (ti.lns ns_id).version current)
      → Scanned ns_id current ps (after_busy p ti s) out
      → Scanned ns_id current
          (p ∷ ps)
          s
          (if hangs ns_id (now p) ti then out.0 else p ∷ out.0, out.1)
  unfolding busy_info
  Scanned-busy p ps s ti out e c a d =
      let same =
        lns_at-update ns_id current s.infos p ti (busy_info ns_id current (now p) ti) e refl in
      record {
        tree = d.tree;
        grows = omega (arith, d.grows);
        same_capacity = d.same_capacity ∙ a.same_capacity;
        same_lns = λ k. d.same_lns k ∙ same k;
        cover = λ v.
            or-chain (covers (live s.tree) v) (contains (range (ti.lns ns_id).version current) v)
              (d.cover v) (a.same_cover v) (held-eq ns_id current _ s.infos ps v same)
              (let hold : may_hold current (lns_at s.infos ns_id p) v
                    ≡ contains (range (ti.lns ns_id).version current) v =
                  rw e (rw c refl) in
                hold);
        counts = ground (arith, d.counts);
        hung_all = λ P xs hs. d.hung_all P xs.1 (elim (Bool-cases (hangs ns_id (now p) ti)) [
          | inl up ↦ rw up (xs.0, hs)
          | inr still ↦ rw still hs
        ]);
      }

  pub scan_threads-Scanned :
      (ps : List ℕ) (s : Scan)
      → Readers s.infos ns_id current ps
      → IsTree s.tree
      → s.tree.len + length ps ≤ s.tree.capacity
      → (out : List ℕ × Scan) × (scan_threads q ns_id current now ps s ≡ ok out)
        × Scanned ns_id current ps s out
  scan_threads-Scanned [] s r t room = (
    ([], s),
    unfold scan_threads in refl,
    record {
      tree = t;
      grows = omega arith;
      same_capacity = refl;
      same_lns = λ k. refl;
      cover = λ v. ground arith;
      counts = refl;
      hung_all = λ P xs hs. hs;
    },
  )
  scan_threads-Scanned (p ∷ ps) s r t room =
      let (ti, e, le) = reader-info ns_id current (s.infos p) r.0 in
      let version = (ti.lns ns_id).version in
      elim (Bool-cases ((ti.lns ns_id).counter == 0)) [
        | inl quiet ↦
            let zero_count = ==→eq (ti.lns ns_id).counter 0 quiet in
            let same =
              lns_at-update ns_id current s.infos p ti (idle_info ns_id ti) e
                (unfold idle_info in refl) in
            let (out, runs, d) =
              scan_threads-Scanned ps (after_idle p ti s)
                (Readers-eq ns_id current s.infos _ ps (λ k. sym (same k)) r.1) t (omega arith) in
            (
              (p ∷ out.0, out.1),
              scan_threads-idle p ps s e zero_count runs,
              Scanned-idle p ps s ti out e zero_count d,
            )
        | inr busy ↦
            let same =
              lns_at-update ns_id current s.infos p ti (busy_info ns_id current (now p) ti) e
                (unfold busy_info in refl) in
            let (adds, a) = add-room q s.tree version current t (omega arith, le) (omega arith) in
            let (out, runs, d) =
              scan_threads-Scanned ps (after_busy p ti s)
                (Readers-eq ns_id current s.infos _ ps (λ k. sym (same k)) r.1) a.tree
                (omega arith) in
            (
              (if hangs ns_id (now p) ti then out.0 else p ∷ out.0, out.1),
              scan_threads-busy p ps s e busy adds runs,
              Scanned-busy p ps s ti out e busy a d,
            )
      ]
