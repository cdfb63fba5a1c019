-- ===== src/Examples/Shared/Safety.antt =====
-- No assertion on an object fails, and no access is to freed memory.
use light_rcu.Prelude.{
  ℕ, ◌≤◌, ◌<◌, ◌≡◌, ◌≢◌, ◌⊎◌, refl, sym, subst, inl, inr, Bool, true, Bool-cases, none, some, ok,
  arith,
}
use light_rcu.Range.{u64_mod}
use light_rcu.Rcu.Interleave.{here}
use light_rcu.Rcu.Interleave.Safety.{Reach-Gone}
use light_rcu.Examples.{Objects, invalid_after, shared_data_process}
use light_rcu.Examples.Simple.{shared_data_constructor, shared_data_destructor}
use light_rcu.Examples.Shared.{
  Program, Turn, library_step, unlock_turn, construct, begin, mark_old, destroy, spoil_doomed,
  free_doomed, pass_doomed, Begins, Runs, begins, turns,
}
use light_rcu.Examples.Shared.Effects.{
  mark-inv, spoil-inv, construct_lem, process_lem, destructor_lem,
}
use light_rcu.Examples.Shared.Invariant.{Kept}
use light_rcu.Examples.Shared.Construct.{construct_Kept}
use light_rcu.Examples.Shared.Own.{
  unlock_Kept, begin_Kept, destroy_Kept, mark_Kept, doomed_Kept, pass_Kept,
}
use light_rcu.Examples.Shared.Turns.{library_step_Kept}

-- No step takes an object back.
Turn-published :
    {n cell shptr : ℕ} {s t : Program} → Turn n cell shptr s t → s.published ≤ t.published
Turn-published (library_step t st h) = omega arith
Turn-published (unlock_turn i a b c) = omega arith
Turn-published (construct i new o a b c d e f g) = omega arith
Turn-published (begin i new a b) = omega arith
Turn-published (mark_old i old o a b) = omega arith
Turn-published (destroy current x xs kept a b c d) = omega arith
Turn-published (spoil_doomed p o a b c) = omega arith
Turn-published (free_doomed p a b) = omega arith
Turn-published (pass_doomed p a b) = omega arith

Turn-Kept :
    {n cell shptr : ℕ} {s t : Program}
    → Kept n cell s
    → t.published < u64_mod
    → Turn n cell shptr s t
    → Kept n cell t
Turn-Kept k fits (library_step t st h) = library_step_Kept k t st h
Turn-Kept k fits (unlock_turn i mine settled b) = unlock_Kept k i mine settled b
Turn-Kept {shptr} k fits (construct i new o mine rests b unused unmade there e) =
    construct_Kept k i new shptr o mine rests unused unmade there fits e
Turn-Kept k fits (begin i new b rests) = begin_Kept k i new b rests
Turn-Kept {n} {cell} {s} k fits (mark_old i old o e runs) =
    let (d, o_is) = mark-inv old s.objects o runs in
    subst (λ (x : Objects). Kept n cell (record s { objects = x })) (sym o_is)
      (mark_Kept k i old d e)
Turn-Kept k fits (destroy current x xs kept e list free rests) =
    destroy_Kept k current x xs kept e list free
Turn-Kept {n} {cell} {s} k fits (spoil_doomed p o e m runs) =
    let (d, o_is) = spoil-inv p s.objects o runs in
    subst (λ (x : Objects). Kept n cell (record s { objects = x })) (sym o_is)
      (doomed_Kept k p s.doomed (some d) e (λ q h. h) (λ h. (d, refl)))
Turn-Kept k fits (free_doomed p e m) =
    doomed_Kept k p none none e (λ q h. absurd (ground arith)) (λ h. absurd (ground arith))
Turn-Kept k fits (pass_doomed p e m) = pass_Kept k

Begins-Kept : {n cell : ℕ} {s : Program} → Begins cell s → Kept n cell s
Begins-Kept {s} b = record {
  reached = here b.sys_starts;
  made_ok = λ p m c. let x = b.none_made p in absurd (ground arith);
  current_ok = inl b.null_cell;
  built_ok = λ i new e. let x = b.none_built i in absurd (ground arith);
  bumped_ok = λ i c new e. let x = b.sys_starts.writers_idle i in absurd (ground arith);
  doomed_ok = λ p e. let x = b.none_doomed in absurd (ground arith);
  null_not_made = b.none_made 0;
}

Runs-Kept :
    {n cell shptr : ℕ} {s : Program} → Runs n cell shptr s → s.published < u64_mod → Kept n cell s
Runs-Kept (begins b) fits = Begins-Kept b
Runs-Kept (turns r t) fits = Turn-Kept (Runs-Kept r (omega (arith, Turn-published t, fits))) fits t

-- In a system in which `ns->version++` is one step, also that of the worker, the version does not wrap
-- and the worker takes no thread to hang: in every state that is reached by interleaved steps of
-- the readers of simple-api-1.c, its writers and the
-- worker, as long as fewer than 2^64 - 2 objects were made: for each object of the program that a
-- thread holds, `shared_data_process` returns, so that its assertions hold and it reads no freed
-- memory.
pub Runs-process :
    {n cell shptr : ℕ} {s : Program}
    → Runs n cell shptr s
    → s.published < invalid_after
    → (i p : ℕ) → (s.sys.threads i).holds p ≡ true
    → s.made p ≡ true
    → (b : Bool) × (shared_data_process p s.objects ≡ ok (b, s.objects))
Runs-process {s} r fits i p held m =
    let k = Runs-Kept r (omega (arith, fits)) in
    process_lem p s.published s.objects
      (k.made_ok p m (elim (Bool-cases (s.sys.called p)) [
        | inl is_called ↦ let h = (Reach-Gone k.reached p is_called).0 i in absurd (ground arith)
        | inr not_called ↦ not_called
      ]))
      fits

-- In a system in which `ns->version++` is one step, also that of the worker, the version does not wrap
-- and the worker takes no thread to hang: in every state that is reached by interleaved steps of
-- the threads of simple-api-1.c and the worker, as long
-- as fewer than 2^64 - 2 objects were made: the protected pointer of the program is null or an object
-- that it has made, and its constructor, which reads the object there if it is not null, returns the new
-- object, so that it reads no freed memory.
pub Runs-construct :
    {n cell shptr : ℕ} {s : Program}
    → Runs n cell shptr s
    → s.published < invalid_after
    → (new : ℕ)
    → ((s.sys.cells cell ≡ 0) ⊎ (s.made (s.sys.cells cell) ≡ true))
      × (o : Objects) × (shared_data_constructor (some new) shptr (s.sys.cells cell) s.objects
          ≡ ok (new, o))
Runs-construct {cell} {shptr} {s} r fits new =
    let k = Runs-Kept r (omega (arith, fits)) in
    elim k.current_ok [
      | inl null ↦
          let (o, plain, _) =
            construct_lem new shptr (s.sys.cells cell) s.published s.objects (inl null) fits in
          (inl null, o, plain)
      | inr own ↦
          let (o, plain, _) =
            construct_lem new shptr (s.sys.cells cell) s.published s.objects (inr own.1) fits in
          (inr own.0, o, plain)
    ]

-- In a system in which `ns->version++` is one step, also that of the worker, the version does not wrap
-- and the worker takes no thread to hang: in every state that is reached by interleaved steps of
-- the threads of simple-api-1.c and the worker, as long
-- as fewer than 2^64 - 2 objects were made: if the worker has called the destructor of an object that the
-- program made, and the destructor has not freed it yet, then `shared_data_destructor` returns, with the
-- object freed: it frees no object twice, and its assertion holds.
pub Runs-destructor :
    {n cell shptr : ℕ} {s : Program}
    → Runs n cell shptr s
    → s.published < invalid_after
    → (p : ℕ) → s.doomed ≡ some p
    → s.made p ≡ true
    → (o : Objects) × (shared_data_destructor p s.objects ≡ ok (tt, o)) × (o p ≡ none)
Runs-destructor {s} r fits p e m =
    let k = Runs-Kept r (omega (arith, fits)) in
    let (d, has) = (k.doomed_ok p e).1 m in
    let there : p ≢ 0 =
      λ null. let m' = subst (λ (x : ℕ). s.made x ≡ true) null m in let z = k.null_not_made in cc in
    destructor_lem p s.objects d there has
