-- ===== src/Tests/Programs.antt =====
-- The programs of examples/ with one reader and one writer, from version 7 on.
use light_rcu.Prelude.{◌≡◌, ◌⊎◌, refl, Bool, true, false, none, some, [], ◌==◌, ok, arith}
use light_rcu.Rcu.Interleave.{
  move, count, load, store, deref, lock, assign, take_version, add, pass_over, splice, start,
  see_version, see_counter, decide, request,
}
use light_rcu.Rcu.Interleave.Race.{start_at, start_at-Start}
use light_rcu.Examples.{Objects, shared_data_process, mark}
use light_rcu.Examples.Simple.{shared_data_constructor, shared_data_destructor}
use light_rcu.Examples.Shared.{
  Program, library_step, unlock_turn, construct, begin, mark_old, destroy, Runs, begins, turns,
}
use light_rcu.Examples.Shared.Safety.{Runs-process, Runs-construct, Runs-destructor}

abbrev nothing_made : Program
nothing_made = record {
  sys = start_at 7;
  objects = λ p. none;
  made = λ p. false;
  published = 0;
  built = λ i. none;
  doomed = none;
}

-- The shared structure stands at 64.
begun : Runs 1 0 64 nothing_made
begun = begins (record {
  sys_starts = start_at-Start 7;
  null_cell = refl;
  none_made = λ p. refl;
  none_built = λ i. refl;
  none_doomed = refl;
})

-- The writer has published the object 1, and the thread has read it.
held :
    (s : Program) × (Runs 1 0 64 s)
    × ((s.sys.threads 0).holds 1 ≡ true)
    × (s.made 1 ≡ true)
    × (s.published ≡ 1)
unfolding shared_data_constructor
held =
    let r1 : Runs 1 0 64 _ = turns begun (library_step _ (lock 0 refl) refl) in
    let r2 = turns r1 (construct 0 1 _ refl refl refl refl refl (λ e. omega arith) refl) in
    let r3 = turns r2 (begin 0 1 refl refl) in
    let r4 = turns r3 (library_step _ (assign 0 0 1 refl) refl) in
    let r5 = turns r4 (unlock_turn 0 refl refl refl) in
    let r6 = turns r5 (library_step _ (move 0 _ (omega arith) (count refl)) refl) in
    let r7 = turns r6 (library_step _ (move 0 _ (omega arith) (load refl)) refl) in
    let r8 = turns r7 (library_step _ (move 0 _ (omega arith) (store 8 refl)) refl) in
    let r9 = turns r8 (library_step _ (move 0 _ (omega arith) (deref 0 refl)) refl) in
    (_, r9, refl, refl, refl)

-- The writer has replaced the object 1 by 3, and the worker has called its destructor.
doomed :
    (s : Program) × (Runs 1 0 64 s) × (s.doomed ≡ some 1) × (s.made 1 ≡ true) × (s.published ≡ 2)
unfolding shared_data_constructor mark
doomed =
    let r1 : Runs 1 0 64 _ = turns begun (library_step _ (lock 0 refl) refl) in
    let r2 = turns r1 (construct 0 1 _ refl refl refl refl refl (λ e. omega arith) refl) in
    let r3 = turns r2 (begin 0 1 refl refl) in
    let r4 = turns r3 (library_step _ (assign 0 0 1 refl) refl) in
    let r5 = turns r4 (library_step _ (pass_over 0 0 refl) refl) in
    let r6 = turns r5 (construct 0 3 _ refl refl refl refl refl (λ e. omega arith) refl) in
    let r7 = turns r6 (begin 0 3 refl refl) in
    let r8 = turns r7 (library_step _ (assign 0 0 3 refl) refl) in
    let r9 = turns r8 (unlock_turn 0 refl refl refl) in
    let r10 = turns r9 (mark_old 0 1 _ refl refl) in
    let r11 = turns r10 (library_step _ (take_version 0 1 refl) refl) in
    let r12 = turns r11 (library_step _ (add 0 1 9 refl) refl) in
    let r13 = turns r12 (library_step _ (splice refl) refl) in
    let r14 = turns r13 (library_step _ (start refl) refl) in
    let r15 = turns r14 (library_step _ (see_version 0 9 refl) refl) in
    let r16 = turns r15 (library_step _ (see_counter 0 9 refl) refl) in
    let r17 = turns r16 (
      library_step _
        (decide 9 refl
          (λ i l. let e : (i == 0) ≡ true = ground arith in (0, 0, rw e refl, rw e refl)))
        refl) in
    let r18 = turns r17 (destroy 9 (request 1 9) [] [] refl refl refl refl) in
    (_, r18, refl, refl, refl)

Runs-process_example : (b : Bool) × (shared_data_process 1 held.0.objects ≡ ok (b, held.0.objects))
Runs-process_example = Runs-process held.1 (omega (arith, held.4)) 0 1 held.2 held.3

Runs-construct_example :
    ((held.0.sys.cells 0 ≡ 0) ⊎ (held.0.made (held.0.sys.cells 0) ≡ true))
    × (o : Objects) × (shared_data_constructor (some 3) 64 (held.0.sys.cells 0) held.0.objects
        ≡ ok (3, o))
Runs-construct_example = Runs-construct held.1 (omega (arith, held.4)) 3

Runs-destructor_example :
    (o : Objects) × (shared_data_destructor 1 doomed.0.objects ≡ ok (tt, o)) × (o 1 ≡ none)
Runs-destructor_example = Runs-destructor doomed.1 (omega (arith, doomed.4)) 1 doomed.2 doomed.3
