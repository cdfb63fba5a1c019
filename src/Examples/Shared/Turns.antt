-- ===== src/Examples/Shared/Turns.antt =====
-- The steps that are the library's alone keep the invariant.
use light_rcu.Prelude.{
  ℕ, ◌≡◌, refl, subst, ◌∙◌, inl, inr, true, false, Bool-cases, some, ◌==◌, update, arith,
}
use light_rcu.Rcu.Interleave.{
  Sys, WriterPc, idle, bumped, written, calling, assigning, include, Step, move, barrier, lock,
  unlock, bump, assign, take_version, add, pass_over, lose, splice, start, see_version, see_counter,
  decide, keep, call, finish, Reach, later,
}
use light_rcu.Rcu.Interleave.Safety.{Reach-Inv}
use light_rcu.Examples.Shared.{Program, is_free}
use light_rcu.Examples.Shared.Invariant.{Kept, library_Kept}

-- A writer that is set to something else than an assignment.
unbumped :
    (ws : ℕ → WriterPc) (i : ℕ) (w : WriterPc)
    → assigning w ≡ false
    → (j c new : ℕ) → update ws i w j ≡ bumped c new
    → ws j ≡ bumped c new
unbumped ws i w settled j c new e = elim (Bool-cases (j == i)) [
  | inl mine ↦
      let e' : w ≡ bumped c new = rw mine at e in
      let k = subst (λ (x : WriterPc). assigning x ≡ false) e' settled in absurd (ground arith)
  | inr theirs ↦ rw theirs at e
]

module _ {n cell : ℕ} {s : Program} (k : Kept n cell s) where
  assign_Kept :
      (i c new : ℕ)
      → s.sys.writers i ≡ bumped c new
      → (let t = record s.sys {
        cells = update s.sys.cells c new;
        used = include new s.sys.used;
        writers = update s.sys.writers i (written (s.sys.cells c));
      } in
          Reach n t → Kept n cell (record s { sys = t }))
  assign_Kept i c new e r =
      let (here, none_built, own) = k.bumped_ok i c new e in
      let at_cell : (cell == c) ≡ true = ground arith in
      let mine : s.sys.owner ≡ some i = (Reach-Inv k.reached).writers_ok.1 i (rw e refl) in
      record {
        reached = r;
        made_ok = k.made_ok;
        current_ok = rw at_cell (inr own);
        built_ok = λ j other h.
            let b = k.built_ok j other h in
            let same : j ≡ i = let o = b.0 in cc in
            let h' = subst (λ (x : ℕ). s.built x ≡ some other) same h in absurd (ground arith);
        bumped_ok = λ j d other h.
            k.bumped_ok j d other
              (unbumped s.sys.writers i (written (s.sys.cells c)) refl j d other h);
        doomed_ok = k.doomed_ok;
        null_not_made = k.null_not_made;
      }

  -- A step that leaves the pointers, the lock and the assignments alone.
  quiet_Kept :
      (t : Sys)
      → Step n s.sys t
      → t.called ≡ s.sys.called
      → t.cells ≡ s.sys.cells
      → t.used ≡ s.sys.used
      → t.owner ≡ s.sys.owner
      → ((j c new : ℕ) → t.writers j ≡ bumped c new → s.sys.writers j ≡ bumped c new)
      → Kept n cell (record s { sys = t })
  quiet_Kept t st called cells used owner writers =
      library_Kept k t (later k.reached st) called cells used
        (λ j new e. owner ∙ (k.built_ok j new e).0) writers

  -- The steps that are the library's alone.
  pub library_step_Kept :
      (t : Sys) (st : Step n s.sys t) → is_free st ≡ true → Kept n cell (record s { sys = t })
  library_step_Kept t (move i th below m) h =
      quiet_Kept t (move i th below m) refl refl refl refl (λ j c new b. b)
  library_step_Kept t barrier h = quiet_Kept t barrier refl refl refl refl (λ j c new b. b)
  library_step_Kept t (lock i e) h =
      library_Kept k t (later k.reached (lock i e)) refl refl refl
        (λ j new b. let o = (k.built_ok j new b).0 in cc) (λ j c new b. b)
  library_step_Kept t (unlock i e settled) h = absurd (ground arith)
  library_step_Kept t (bump i c new e mine fresh) h = absurd (ground arith)
  library_step_Kept t (assign i c new e) h =
      assign_Kept i c new e (later k.reached (assign i c new e))
  library_step_Kept t (take_version i old e) h =
      quiet_Kept t (take_version i old e) refl refl refl refl
        (unbumped s.sys.writers i (calling old s.sys.version) refl)
  library_step_Kept t (add i old v e) h =
      quiet_Kept t (add i old v e) refl refl refl refl (unbumped s.sys.writers i idle refl)
  library_step_Kept t (pass_over i old e) h =
      quiet_Kept t (pass_over i old e) refl refl refl refl (unbumped s.sys.writers i idle refl)
  library_step_Kept t (lose i old v e) h =
      quiet_Kept t (lose i old v e) refl refl refl refl (unbumped s.sys.writers i idle refl)
  library_step_Kept t (splice e) h = quiet_Kept t (splice e) refl refl refl refl (λ j c new b. b)
  library_step_Kept t (start e) h = quiet_Kept t (start e) refl refl refl refl (λ j c new b. b)
  library_step_Kept t (see_version i current e) h =
      quiet_Kept t (see_version i current e) refl refl refl refl (λ j c new b. b)
  library_step_Kept t (see_counter i current e) h =
      quiet_Kept t (see_counter i current e) refl refl refl refl (λ j c new b. b)
  library_step_Kept t (decide current e all) h =
      quiet_Kept t (decide current e all) refl refl refl refl (λ j c new b. b)
  library_step_Kept t (keep current x xs kept e list) h =
      quiet_Kept t (keep current x xs kept e list) refl refl refl refl (λ j c new b. b)
  library_step_Kept t (call current x xs kept e list free) h = absurd (ground arith)
  library_step_Kept t (finish current kept e list) h =
      quiet_Kept t (finish current kept e list) refl refl refl refl (λ j c new b. b)
