-- ===== src/Examples/Shared/Own.antt =====
-- The steps that the program takes with a call of the library, or on its objects, keep the invariant.
use light_rcu.Prelude.{
  ℕ, ◌+◌, ◌≡◌, refl, sym, subst, inl, inr, true, false, Bool-cases, Option, none, some, List, ◌∷◌,
  ◌==◌, update, arith,
}
use light_rcu.Rcu.State.{LrcuPtr}
use light_rcu.Rcu.Interleave.{
  idle, bumped, written, assigning, include, serving, blocked, unlock, bump, call, later,
}
use light_rcu.Rcu.Interleave.Invariant.{WriterOk}
use light_rcu.Rcu.Interleave.Safety.{Reach-Inv}
use light_rcu.Rcu.Interleave.Once.{Reach-first_call}
use light_rcu.Examples.{SharedData, invalid_before}
use light_rcu.Examples.Shared.{Program}
use light_rcu.Examples.Shared.Invariant.{IsOwn, Kept, library_Kept, object_Kept}

module _ {n cell : ℕ} {s : Program} (k : Kept n cell s) where
  pub unlock_Kept :
      (i : ℕ)
      → s.sys.owner ≡ some i
      → assigning (s.sys.writers i) ≡ false
      → s.built i ≡ none
      → Kept n cell (record s { sys = record s.sys { owner = none } })
  unlock_Kept i mine settled none_built =
      library_Kept k (record s.sys { owner = none }) (later k.reached (unlock i mine settled)) refl
        refl refl
        (λ j new e.
          let o = (k.built_ok j new e).0 in
          let same : j ≡ i = cc in
          let e' = subst (λ (x : ℕ). s.built x ≡ some new) same e in absurd (ground arith))
        (λ j c new e. e)

  pub begin_Kept :
      (i new : ℕ)
      → s.built i ≡ some new
      → s.sys.writers i ≡ idle
      → Kept n cell (record s {
        sys = record s.sys {
          version = s.sys.version + 1;
          writers = update s.sys.writers i (bumped cell new);
        };
        built = update s.built i none;
      })
  begin_Kept i new b rests =
      let (mine, unused, own) = k.built_ok i new b in
      record {
        reached = later k.reached (bump i cell new rests mine unused);
        made_ok = k.made_ok;
        current_ok = k.current_ok;
        built_ok = λ j x h. elim (Bool-cases (j == i)) [
          | inl same ↦ let h' = rw same at h in absurd (ground arith)
          | inr other ↦ k.built_ok j x (rw other at h)
        ];
        bumped_ok = λ j c x h. elim (Bool-cases (j == i)) [
          | inl same ↦
              let h' = rw same at h in
              let c_is : cell ≡ c = cc in
              let x_is : new ≡ x = cc in rw same (sym c_is, refl, subst (IsOwn s) x_is own)
          | inr other ↦ rw other (k.bumped_ok j c x (rw other at h))
        ];
        doomed_ok = k.doomed_ok;
        null_not_made = k.null_not_made;
      }

  pub destroy_Kept :
      (current : ℕ) (x : LrcuPtr) (xs kept : List LrcuPtr)
      → s.sys.worker ≡ serving current kept
      → s.sys.worker_list ≡ x ∷ xs
      → blocked s.sys current n x.version ≡ false
      → Kept n cell (record s {
        sys = record s.sys { worker_list = xs; called = include x.ptr s.sys.called };
        doomed = some x.ptr;
      })
  destroy_Kept current x xs kept e list free = record {
    reached = later k.reached (call current x xs kept e list free);
    made_ok = λ p m c. k.made_ok p m (ground (arith, c));
    current_ok = k.current_ok;
    built_ok = k.built_ok;
    bumped_ok = k.bumped_ok;
    doomed_ok = λ p h.
        let not_yet = (Reach-first_call k.reached x xs list).0 in
        let p_is : x.ptr ≡ p = cc in
        subst
          (λ (y : ℕ).
            (include x.ptr s.sys.called y ≡ true)
            × (s.made y ≡ true → (d : SharedData) × (s.objects y ≡ some d)))
          p_is (ground arith, λ m. let (d, has, _) = k.made_ok x.ptr m not_yet in (d, has));
    null_not_made = k.null_not_made;
  }

  pub mark_Kept :
      (i old : ℕ) (d : SharedData)
      → s.sys.writers i ≡ written old
      → Kept n cell
          (record s { objects = update s.objects old (some (record d { c = invalid_before })) })
  mark_Kept i old d e =
      let w = (Reach-Inv k.reached).writers_ok.0 i in
      object_Kept k old s.doomed (some (record d { c = invalid_before }))
        (subst (WriterOk s.sys) e w) (λ c. (record d { c = invalid_before }, refl, inl refl))
        (λ p h. h) (λ h. (record d { c = invalid_before }, refl))

  -- The destructor's accesses to its object.
  pub doomed_Kept :
      (p : ℕ) (dm : Option ℕ) (y : Option SharedData)
      → s.doomed ≡ some p
      → ((q : ℕ) → dm ≡ some q → s.doomed ≡ some q)
      → (dm ≡ some p → (d : SharedData) × (y ≡ some d))
      → Kept n cell (record s { objects = update s.objects p y; doomed = dm })
  doomed_Kept p dm y e dooms there =
      let c = (k.doomed_ok p e).0 in
      object_Kept k p dm y ((Reach-Inv k.reached).called_ok p c).removed
        (λ not_called. absurd (ground arith)) dooms there

  pub pass_Kept : Kept n cell (record s { doomed = none })
  pass_Kept = record {
    reached = k.reached;
    made_ok = k.made_ok;
    current_ok = k.current_ok;
    built_ok = k.built_ok;
    bumped_ok = k.bumped_ok;
    doomed_ok = λ p h. absurd (ground arith);
    null_not_made = k.null_not_made;
  }
