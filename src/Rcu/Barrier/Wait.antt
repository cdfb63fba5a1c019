-- ===== src/Rcu/Barrier/Wait.antt =====
-- The wait of `lrcu_barrier_ns`, and the pass of the worker that ends it.
use light_rcu.Prelude.{
  ℕ, zero, suc, ◌+◌, ◌≤◌, ◌<◌, ◌≡◌, inl, inr, refl, sym, true, ◌&&◌, some, ltb, ◌==◌, if◌then◌else◌,
  update, ok, arith, Bool-cases, lt→ltb, le→ltb, subst, ap,
}
use light_rcu.Rcu.State.{Namespace, World, M}
use light_rcu.Rcu.Writer.{bump, write_barrier_ns}
use light_rcu.Rcu.Writer.Handover.{CanWrite}
use light_rcu.Rcu.Worker.{is_empty}
use light_rcu.Rcu.Cycle.{settle}
use light_rcu.Rcu.Barrier.{wait_processed}

-- The worlds and the namespace's contents at the start of each round, up to round `m`.
pub record Rounds (sleep : ℕ → M (Unit {0})) (p m : ℕ) : Type 0 where
  pub worlds : ℕ → World
  pub contents : ℕ → Namespace
  pub sleeps : (j : ℕ) → j < m → sleep j (worlds j) ≡ ok (tt, worlds (suc j))
  pub allocated : (j : ℕ) → j ≤ m → (worlds j).namespaces p ≡ some (contents j)

module _ (sleep : ℕ → M (Unit {0})) (p m current : ℕ) (r : Rounds sleep p m) where
  wait_from :
      (fuel k : ℕ)
      → ((j : ℕ) → j < m → (r.contents j).processed_version ≤ current)
      → current < (r.contents m).processed_version
      → k ≤ m
      → m < k + fuel
      → wait_processed sleep p current fuel k (r.worlds k) ≡ ok (m, r.worlds m)
  unfolding wait_processed
  wait_from zero k before after le lt = ground arith
  wait_from (suc fuel) k before after le lt =
      let a = r.allocated k le in
      elim (Bool-cases (k == m)) [
        | inl same ↦
            let e : k ≡ m = ground arith in
            let z : ltb current (r.contents k).processed_version ≡ true =
              lt→ltb current (r.contents k).processed_version
                (subst (λ (x : ℕ). current < (r.contents x).processed_version) (sym e) after) in
            rw (a, z) (ap (λ (x : ℕ). ok (x, r.worlds x)) e)
        | inr other ↦
            let l : k < m = ground arith in
            let z = le→ltb current (r.contents k).processed_version (before k l) in
            let n : k + 1 ≡ suc k = omega arith in
            rw (a, z, r.sleeps k l, n)
              (wait_from fuel (suc k) before after (omega arith) (omega arith))
      ]

  -- The wait of `lrcu_barrier_ns` ends, at the first round at which `processed_version` is past the
  -- version that it has read, and at no earlier one, where the namespace stays allocated and there is
  -- fuel for one round more than that.
  pub wait_processed_lem :
      (fuel : ℕ)
      → ((j : ℕ) → j < m → (r.contents j).processed_version ≤ current)
      → current < (r.contents m).processed_version
      → m < fuel
      → wait_processed sleep p current fuel 0 (r.worlds 0) ≡ ok (m, r.worlds m)
  wait_processed_lem fuel before after lt =
      wait_from fuel 0 before after (omega arith) (omega arith)

module _ (w : World) (id : ℕ) (s : CanWrite w id) where
  -- The namespace after a pass that leaves nothing to do.
  abbrev pub processed_ns : Namespace
  processed_ns = record (bump s.ns) { processed_version = (bump s.ns).version }

  abbrev pub processed_world : World
  processed_world = record w {
    namespaces = update (update w.namespaces s.p (some (bump s.ns))) s.p (some processed_ns);
  }

  settle_lem :
      (is_empty s.ns.worker_list && is_empty s.ns.worker_hlist) ≡ true
      → settle id s.p w ≡ ok (tt, processed_world)
  unfolding settle write_barrier_ns bump
  settle_lem nothing =
      let same : (s.p == s.p) ≡ true = ground arith in
      rw (s.handler_eq, s.handlers_eq, lt→ltb id w.ns_max s.id_fits)
        (rw (s.ns_eq, s.namespaces_eq, same) (rw nothing refl))

  -- Where the worker's lists are empty and the version is the one that `lrcu_barrier_ns` has read or
  -- a later one, the end of one pass of the worker ends the wait: the wait stops at once, or after the
  -- round in which the pass ended.
  pub wait_processed-settle :
      (current fuel : ℕ)
      → (is_empty s.ns.worker_list && is_empty s.ns.worker_hlist) ≡ true
      → current ≤ s.ns.version
      → (k : ℕ) × (w' : World) × (wait_processed
            (λ j. settle id s.p)
            s.p
            current
            (suc (suc fuel))
            0
            w
          ≡ ok (k, w'))
        × (k ≤ 1)
  unfolding bump
  wait_processed-settle current fuel nothing le =
      let sleep : ℕ → M (Unit {0}) = λ j. settle id s.p in
      elim (Bool-cases (ltb current s.ns.processed_version)) [
        | inl past ↦
            let r : Rounds sleep s.p 0 = record {
              worlds = λ j. w;
              contents = λ j. s.ns;
              sleeps = λ j l. ground arith;
              allocated = λ j l. s.namespaces_eq;
            } in
            (
              0,
              w,
              wait_processed_lem sleep s.p 0 current r (suc (suc fuel)) (λ j l. ground arith)
                  (ground arith) (omega arith),
              omega arith,
            )
        | inr early ↦
            let r : Rounds sleep s.p 1 = record {
              worlds = λ j. if j == 0 then w else processed_world;
              contents = λ j. if j == 0 then s.ns else processed_ns;
              sleeps = λ j l. let z : j ≡ 0 = omega arith in rw z (settle_lem nothing);
              allocated = λ j l. elim (Bool-cases (j == 0)) [
                | inl z ↦ rw z (s.namespaces_eq)
                | inr z ↦ let same : (s.p == s.p) ≡ true = ground arith in rw (z, same) refl
              ];
            } in
            (
              1,
              processed_world,
              wait_processed_lem sleep s.p 1 current r (suc (suc fuel))
                  (λ j l. let z : (j == 0) ≡ true = ground arith in rw z (ground arith))
                  (omega (arith, s.version_fits)) (omega arith),
              omega arith,
            )
      ]
