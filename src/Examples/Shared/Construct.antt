-- ===== src/Examples/Shared/Construct.antt =====
-- A new object keeps the invariant: it is in nobody else's hands.
use light_rcu.Prelude.{
  ℕ, ◌+◌, ◌≤◌, ◌<◌, ◌≡◌, ◌≢◌, ◌⊎◌, refl, sym, subst, inl, inr, true, false, Bool-cases, none, some,
  ==→eq, ==→ne, ◌==◌, update, ok, arith,
}
use light_rcu.Range.{u64_mod}
use light_rcu.Rcu.Interleave.{idle, bumped, include}
use light_rcu.Rcu.Interleave.Safety.{Reach-Inv}
use light_rcu.Examples.{SharedData, Objects}
use light_rcu.Examples.Simple.{shared_data_constructor}
use light_rcu.Examples.Shared.{Program}
use light_rcu.Examples.Shared.Effects.{IsNew, IsReadable, construct-inv}
use light_rcu.Examples.Shared.Invariant.{IsOwn, Kept}

abbrev pub with_new : Program → ℕ → ℕ → Objects → Program
with_new s i new o = record s {
  objects = o;
  made = include new s.made;
  published = s.published + 1;
  built = update s.built i (some new);
}

module _ {n cell : ℕ} {s : Program} (k : Kept n cell s) (i new : ℕ) (d : SharedData)
    (mine : s.sys.owner ≡ some i) (rests : s.sys.writers i ≡ idle) (unused : s.sys.used new ≡ false)
    (unmade : s.made new ≡ false) (there : new ≢ 0) (low : 1 ≤ d.c)
    (high : d.c ≤ s.published + 1) where
  abbrev after : Program
  after = with_new s i new (update s.objects new (some d))

  -- Another object stays as it is.
  keeps : (p : ℕ) → p ≢ new → IsOwn s p → IsOwn after p
  keeps p ne own =
      let e : (p == new) ≡ false = ground arith in
      let (x, has, l, h) = own.1 in rw e (own.0, (x, has, l, omega (arith, h)))

  new-IsReadable :
      (p : ℕ)
      → after.made p ≡ true
      → s.sys.called p ≡ false
      → IsReadable after.published (after.objects p)
  new-IsReadable p m c = elim (Bool-cases (p == new)) [
    | inl same ↦ rw same (d, refl, inr (low, high))
    | inr other ↦
        let (x, has, vals) = k.made_ok p (rw other at m) c in
        rw other (x, has, ground (arith, vals))
  ]

  off_cell : s.sys.cells cell ≢ new
  off_cell e =
      let u = subst (λ (x : ℕ). s.sys.used x ≡ true) e ((Reach-Inv k.reached).cells_used cell) in cc

  new-IsOwn : IsOwn after new
  new-IsOwn = let self : (new == new) ≡ true = ground arith in rw self (refl, (d, refl, low, high))

  new_built :
      (j x : ℕ)
      → after.built j ≡ some x
      → (s.sys.owner ≡ some j) × (s.sys.used x ≡ false) × IsOwn after x
  new_built j x h = elim (Bool-cases (j == i)) [
    | inl j_is ↦
        let h' = rw j_is at h in
        let x_is : new ≡ x = cc in
        subst (λ (y : ℕ). (s.sys.owner ≡ some j) × (s.sys.used y ≡ false) × IsOwn after y) x_is
          (subst (λ (y : ℕ). s.sys.owner ≡ some y) (sym (==→eq j i j_is)) mine, unused, new-IsOwn)
    | inr j_not ↦
        let o = (k.built_ok j x (rw j_not at h)).0 in
        let same : j ≡ i = cc in absurd (==→ne j i j_not same)
  ]

  new_bumped :
      (j c x : ℕ)
      → s.sys.writers j ≡ bumped c x
      → (c ≡ cell) × (after.built j ≡ none) × IsOwn after x
  new_bumped j c x h = elim (Bool-cases (j == i)) [
    | inl j_is ↦
        let h' = subst (λ (y : ℕ). s.sys.writers y ≡ bumped c x) (==→eq j i j_is) h in
        absurd (ground arith)
    | inr j_not ↦
        let o = (Reach-Inv k.reached).writers_ok.1 j (rw h refl) in
        let same : j ≡ i = cc in absurd (==→ne j i j_not same)
  ]

  new_doomed :
      (p : ℕ)
      → s.doomed ≡ some p
      → (s.sys.called p ≡ true)
        × (after.made p ≡ true → (x : SharedData) × (after.objects p ≡ some x))
  new_doomed p h =
      let (c, has) = k.doomed_ok p h in
      let u = ((Reach-Inv k.reached).called_ok p c).removed.was_used in
      (
        c,
        λ m. elim (Bool-cases (p == new)) [
          | inl same ↦
              let u' = subst (λ (x : ℕ). s.sys.used x ≡ true) (==→eq p new same) u in
              absurd (ground arith)
          | inr other ↦ rw other (has (rw other at m))
        ],
      )

  new_Kept : Kept n cell after
  new_Kept = record {
    reached = k.reached;
    made_ok = new-IsReadable;
    current_ok = elim k.current_ok [
      | inl null ↦ inl null
      | inr own ↦ inr (keeps (s.sys.cells cell) off_cell own)
    ];
    built_ok = new_built;
    bumped_ok = new_bumped;
    doomed_ok = new_doomed;
    null_not_made = let e : (0 == new) ≡ false = ground arith in rw e k.null_not_made;
  }

pub construct_Kept :
    {n cell : ℕ} {s : Program} (k : Kept n cell s) (i new shptr : ℕ) (o : Objects)
    → s.sys.owner ≡ some i
    → s.sys.writers i ≡ idle
    → s.sys.used new ≡ false
    → s.made new ≡ false
    → new ≢ 0
    → s.published + 1 < u64_mod
    → shared_data_constructor (some new) shptr (s.sys.cells cell) s.objects ≡ ok (new, o)
    → Kept n cell (with_new s i new o)
construct_Kept {n} {cell} {s} k i new shptr o mine rests unused unmade there fits e =
    let current : (s.sys.cells cell ≡ 0) ⊎ IsNew s.published (s.objects (s.sys.cells cell)) =
      elim k.current_ok [ inl null ↦ inl null | inr own ↦ inr own.1 ] in
    let (d, o_is, low, high) =
      construct-inv new shptr (s.sys.cells cell) s.published s.objects o current fits e in
    subst (λ (x : Objects). Kept n cell (with_new s i new x)) (sym o_is)
      (new_Kept k i new d mine rests unused unmade there low high)
