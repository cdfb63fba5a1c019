-- ===== src/Examples/Shared/Invariant.antt =====
-- What holds of the objects as long as fewer were made than a counter can tell apart.
use light_rcu.Prelude.{
  ℕ, ◌≡◌, ◌≢◌, ◌⊎◌, sym, subst, inl, inr, Bool, true, false, Bool-cases, Option, none, some, ==→eq,
  ◌==◌, update, arith,
}
use light_rcu.Rcu.Interleave.{Sys, bumped, Reach}
use light_rcu.Rcu.Interleave.Pending.{Removed}
use light_rcu.Rcu.Interleave.Invariant.{WriterOk}
use light_rcu.Rcu.Interleave.Safety.{Reach-Inv}
use light_rcu.Examples.{SharedData}
use light_rcu.Examples.Shared.{Program}
use light_rcu.Examples.Shared.Effects.{IsNew, IsReadable}

-- An object that was made, and that no reader has got yet or that a new reader gets.
abbrev pub IsOwn : Program → ℕ → Type 0
IsOwn s p = (s.made p ≡ true) × IsNew s.published (s.objects p)

pub record Kept (n cell : ℕ) (s : Program) : Type 0 where
  pub reached : Reach n s.sys
  pub made_ok :
      (p : ℕ) → s.made p ≡ true → s.sys.called p ≡ false → IsReadable s.published (s.objects p)
  pub current_ok : (s.sys.cells cell ≡ 0) ⊎ IsOwn s (s.sys.cells cell)
  pub built_ok :
      (i new : ℕ)
      → s.built i ≡ some new
      → (s.sys.owner ≡ some i) × (s.sys.used new ≡ false) × IsOwn s new
  pub bumped_ok :
      (i c new : ℕ) → s.sys.writers i ≡ bumped c new → (c ≡ cell) × (s.built i ≡ none) × IsOwn s new
  pub doomed_ok :
      (p : ℕ)
      → s.doomed ≡ some p
      → (s.sys.called p ≡ true) × (s.made p ≡ true → (d : SharedData) × (s.objects p ≡ some d))
  pub null_not_made : s.made 0 ≡ false

module _ {n cell : ℕ} {s : Program} (k : Kept n cell s) where
  -- A step of the library that leaves the pointers alone.
  pub library_Kept :
      (t : Sys)
      → Reach n t
      → t.called ≡ s.sys.called
      → t.cells ≡ s.sys.cells
      → t.used ≡ s.sys.used
      → ((i new : ℕ) → s.built i ≡ some new → t.owner ≡ some i)
      → ((i c new : ℕ) → t.writers i ≡ bumped c new → s.sys.writers i ≡ bumped c new)
      → Kept n cell (record s { sys = t })
  library_Kept t r called cells used owned writers = record {
    reached = r;
    made_ok = λ p m c. k.made_ok p m (subst (λ (f : ℕ → Bool). f p ≡ false) called c);
    current_ok = subst (λ (f : ℕ → ℕ). (f cell ≡ 0) ⊎ IsOwn s (f cell)) (sym cells) k.current_ok;
    built_ok = λ i new e.
        let b = k.built_ok i new e in
        (owned i new e, subst (λ (f : ℕ → Bool). f new ≡ false) (sym used) b.1, b.2);
    bumped_ok = λ i c new e. k.bumped_ok i c new (writers i c new e);
    doomed_ok = λ p e.
        let d = k.doomed_ok p e in (subst (λ (f : ℕ → Bool). f p ≡ true) (sym called) d.0, d.1);
    null_not_made = k.null_not_made;
  }

  -- An object changes that is in no cell any more.
  pub object_Kept :
      (q : ℕ) (dm : Option ℕ) (y : Option SharedData)
      → Removed s.sys q
      → (s.sys.called q ≡ false → IsReadable s.published y)
      → ((p : ℕ) → dm ≡ some p → s.doomed ≡ some p)
      → (dm ≡ some q → (d : SharedData) × (y ≡ some d))
      → Kept n cell (record s { objects = update s.objects q y; doomed = dm })
  object_Kept q dm y r readable dooms there = record {
    reached = k.reached;
    made_ok = λ p m c. elim (Bool-cases (p == q)) [
      | inl same ↦ rw same (readable (subst (λ (z : ℕ). s.sys.called z ≡ false) (==→eq p q same) c))
      | inr other ↦ rw other (k.made_ok p m c)
    ];
    current_ok = elim k.current_ok [
      | inl null ↦ inl null
      | inr own ↦ inr (own.0, away (s.sys.cells cell) (r.off cell) own.1)
    ];
    built_ok = λ i new e.
        let b = k.built_ok i new e in (b.0, b.1, (b.2.0, away new (unused new b.1) b.2.1));
    bumped_ok = λ i c new e.
        let b = k.bumped_ok i c new e in
        let w = (Reach-Inv k.reached).writers_ok.0 i in
        let fresh = subst (WriterOk s.sys) e w in
        (b.0, b.1, (b.2.0, away new (unused new fresh) b.2.1));
    doomed_ok = λ p e.
        let d = k.doomed_ok p (dooms p e) in
        (
          d.0,
          λ m. elim (Bool-cases (p == q)) [
            | inl same ↦ rw same (there (subst (λ (z : ℕ). dm ≡ some z) (==→eq p q same) e))
            | inr other ↦ rw other (d.1 m)
          ],
        );
    null_not_made = k.null_not_made;
  }
    where
      unused : (p : ℕ) → s.sys.used p ≡ false → p ≢ q
      unused p f e = let u = r.was_used in let g = subst (λ (z : ℕ). s.sys.used z ≡ false) e f in cc

      away :
          (p : ℕ)
          → p ≢ q
          → IsNew s.published (s.objects p)
          → IsNew s.published (update s.objects q y p)
      away p ne h = let e : (p == q) ≡ false = ground arith in rw e h
