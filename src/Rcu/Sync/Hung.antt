-- ===== src/Rcu/Sync/Hung.antt =====
-- `__lrcu_get_synchronized` as a whole: the second loop, and the tree that it returns.
use light_rcu.Prelude.{
  ℕ, ◌+◌, ◌≤◌, ◌<◌, ◌≡◌, refl, ◌∙◌, subst, true, false, Option, some, List, [], ◌∷◌, ltb, ◌==◌,
  ltb→le, if◌then◌else◌, ok, Bool-cases, inl, inr, arith, length, All,
}
use light_rcu.Qsort.{Qsort}
use light_rcu.Range.{Range, RangeTree, live, empty_value, add}
use light_rcu.Range.Spec.{covers}
use light_rcu.Range.Merge.{IsTree}
use light_rcu.Range.Add.{appended, add-room}
use light_rcu.Rcu.State.{ThreadInfo}
use light_rcu.Rcu.Sync.{scan_hung, goes_back, is_ahead, add_window}
use light_rcu.Rcu.Sync.Covers.{lns_of, lns_at, busy_since, Readers, reader-info}

-- Neither loop adds a version below which no section began.
abbrev pub Quiet : (ℕ → Option ThreadInfo) → ℕ → ℕ → ℕ → Type 0
Quiet infos ns_id v p = busy_since (lns_at infos ns_id p) v ≡ false

pub record HungScanned (infos : ℕ → Option ThreadInfo) (ns_id : ℕ) (ps : List ℕ)
    (tree tree' : RangeTree) : Type 0 where
  pub tree_ok : IsTree tree'
  pub same_capacity : tree'.capacity ≡ tree.capacity
  pub keeps : (v : ℕ) → covers (live tree) v ≡ true → covers (live tree') v ≡ true
  pub adds_nothing :
      (v : ℕ) → All (Quiet infos ns_id v) ps → covers (live tree') v ≡ covers (live tree) v

module _ (q : Qsort Range) (ns_id current : ℕ) (small : current < empty_value)
    (infos : ℕ → Option ThreadInfo) where
  pub scan_hung-next :
      (p : ℕ) (ps threads : List ℕ) (tree tree' : RangeTree) {ti : ThreadInfo}
      {out : List ℕ × List ℕ × RangeTree}
      → infos p ≡ some ti
      → add_window q ns_id current ti tree ≡ ok tree'
      → scan_hung q ns_id current infos ps
          (if goes_back ns_id ti then p ∷ threads else threads)
          tree'
        ≡ ok out
      → scan_hung q ns_id current infos (p ∷ ps) threads tree
        ≡ ok (if goes_back ns_id ti then out.0 else p ∷ out.0, out.1, out.2)
  unfolding scan_hung
  scan_hung-next p ps threads tree tree' e a r = rw e (rw a (rw r refl))

  -- The range that is added, if any.
  record Window (ti : ThreadInfo) (tree tree' : RangeTree) : Type 0 where
    runs : add_window q ns_id current ti tree ≡ ok tree'
    tree_ok : IsTree tree'
    same_capacity : tree'.capacity ≡ tree.capacity
    grows : tree'.len ≤ tree.len + 1
    keeps : (v : ℕ) → covers (live tree) v ≡ true → covers (live tree') v ≡ true
    adds_nothing :
        (v : ℕ)
        → busy_since (some (ti.lns ns_id)) v ≡ false
        → covers (live tree') v ≡ covers (live tree) v

  Window-of_range :
      (ti : ThreadInfo) (tree : RangeTree) (b : ℕ)
      → IsTree tree
      → tree.len < tree.capacity
      → ((ti.lns ns_id).counter == 0) ≡ false
      → (ti.lns ns_id).version ≤ current
      → (ti.lns ns_id).version ≤ b
      → add_window q ns_id current ti tree ≡ add q tree (ti.lns ns_id).version b
      → Window ti tree (appended tree (ti.lns ns_id).version b)
  Window-of_range ti tree b t room busy le le_b e =
      let (adds, a) = add-room q tree (ti.lns ns_id).version b t (omega arith, le_b) room in
      record {
        runs = e ∙ adds;
        tree_ok = a.tree;
        same_capacity = refl;
        grows = omega arith;
        keeps = λ v h. ground (arith, a.same_cover v);
        adds_nothing = λ v h. ground (arith, a.same_cover v);
      }

  window :
      (ti : ThreadInfo) (tree : RangeTree)
      → IsTree tree
      → tree.len < tree.capacity
      → (ti.lns ns_id).version ≤ current
      → (tree' : RangeTree) × Window ti tree tree'
  unfolding add_window is_ahead
  window ti tree t room le = elim (Bool-cases ((ti.lns ns_id).counter == 0)) [
    | inl idle ↦ (
      tree,
      record {
        runs = rw idle refl;
        tree_ok = t;
        same_capacity = refl;
        grows = omega arith;
        keeps = λ v h. h;
        adds_nothing = λ v h. refl;
      },
    )
    | inr busy ↦ elim (Bool-cases (ltb (ti.hung_lns ns_id).version (ti.lns ns_id).version)) [
      | inl ahead ↦ (_, Window-of_range ti tree current t room busy le le (rw busy (rw ahead refl)))
      | inr still ↦ (
        _,
        Window-of_range ti tree (ti.hung_lns ns_id).version t room busy le (ltb→le _ _ still)
            (rw busy (rw still refl)),
      )
    ]
  ]

  pub scan_hung-HungScanned :
      (ps threads : List ℕ) (tree : RangeTree)
      → Readers infos ns_id current ps
      → IsTree tree
      → tree.len + length ps ≤ tree.capacity
      → (out : List ℕ × List ℕ × RangeTree) × (scan_hung q ns_id current infos ps threads tree
          ≡ ok out)
        × HungScanned infos ns_id ps tree out.2
  scan_hung-HungScanned [] threads tree r t room = (
    ([], threads, tree),
    unfold scan_hung in refl,
    record { tree_ok = t; same_capacity = refl; keeps = λ v h. h; adds_nothing = λ v h. refl },
  )
  scan_hung-HungScanned (p ∷ ps) threads tree r t room =
      let (ti, e, le) = reader-info ns_id current (infos p) r.0 in
      let (tree', w) = window ti tree t (omega arith) le in
      let (out, runs, d) =
        scan_hung-HungScanned ps (if goes_back ns_id ti then p ∷ threads else threads) tree' r.1
          w.tree_ok (omega (arith, w.grows, w.same_capacity)) in
      (
        (if goes_back ns_id ti then out.0 else p ∷ out.0, out.1, out.2),
        scan_hung-next p ps threads tree tree' e w.runs runs,
        record {
          tree_ok = d.tree_ok;
          same_capacity = d.same_capacity ∙ w.same_capacity;
          keeps = λ v h. d.keeps v (w.keeps v h);
          adds_nothing = λ v h.
              d.adds_nothing v h.1
              ∙ w.adds_nothing v
                  (subst (λ (i : Option ThreadInfo). busy_since (lns_of ns_id i) v ≡ false) e h.0);
        },
      )
