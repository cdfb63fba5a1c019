-- ===== src/Rcu/Interleave/Race.antt =====
-- `ns->version++` as the two accesses that it is: the worker's, which takes no lock, may fall between
-- those of writers.
use light_rcu.Prelude.{
  ℕ, ◌+◌, ◌*◌, ◌%◌, ◌≡◌, refl, true, false, Option, none, some, [], ◌∷◌, ◌==◌, arith,
}
use light_rcu.Rcu.Reader.{nest}
use light_rcu.Rcu.Interleave.{
  Sys, idle, resting, outside, Step, Start, move, count, load, store, deref, lock, bump, assign,
  take_version, add, splice, start, see_version, see_counter, decide, call, request,
}

-- The system, and the value that the worker has read of `ns->version` but not yet written back.
pub data RacyStep (n : ℕ) : Sys → Option ℕ → Sys → Option ℕ → Type 0 where
  step : {s t : Sys} {b : Option ℕ} → Step n s t → RacyStep n s b t b
  read_version : (s : Sys) → RacyStep n s none s (some s.version)
  write_version : (s : Sys) (v : ℕ) → RacyStep n s (some v) (record s { version = v + 1 }) none

pub data RacyReach (n : ℕ) (s : Sys) : Sys → Option ℕ → Type 0 where
  begin : RacyReach n s s none
  next : {t u : Sys} {b c : Option ℕ} → RacyReach n s t b → RacyStep n t b u c → RacyReach n s u c

-- A start at version `v`: the pointers in the cells are the even numbers.
abbrev pub start_at : ℕ → Sys
start_at v = record {
  version = v;
  cells = λ c. c * 2;
  used = λ p. p % 2 == 0;
  threads =
      λ i. record { lns = record { version = 0; counter = 0 }; pc = outside; holds = λ p. false };
  owner = none;
  writers = λ i. idle;
  free_list = [];
  worker_list = [];
  worker = resting;
  seen_version = λ i. none;
  seen_counter = λ i. none;
  called = λ p. false;
}

pub start_at-Start : (v : ℕ) → Start (start_at v)
start_at-Start v = record {
  all_out = λ i. refl;
  counters = λ i. refl;
  none_held = λ i p. refl;
  versions = λ i. omega arith;
  cells_used = λ c. ground arith;
  distinct = λ a b e. omega arith;
  not_owned = refl;
  writers_idle = λ i. refl;
  no_free = refl;
  no_work = refl;
  worker_rests = refl;
  none_called = λ p. refl;
}

-- From a start at any version, with one reader and one writer, if the worker's `ns->version++` is a
-- read and a later write, a state can be reached in which the thread holds an object whose destructor
-- was called: the late write takes the version back, and the writer's request gets a version below
-- that of the reader.
pub race-breaks :
    (v : ℕ)
    → (t : Sys) × RacyReach 1 (start_at v) t none
      × (t.called 1 ≡ true)
      × ((t.threads 0).holds 1 ≡ true)
unfolding nest
race-breaks v =
    let r1 : RacyReach 1 (start_at v) (start_at v) (some v) =
      next begin (read_version (start_at v)) in
    let r1' = next r1 (step (lock 0 refl)) in
    let r2 = next r1' (step (bump 0 0 1 refl refl refl)) in
    let r3 = next r2 (step (assign 0 0 1 refl)) in
    let r4 = next r3 (step (take_version 0 0 refl)) in
    let r5 = next r4 (step (add 0 0 (v + 1) refl)) in
    let r6 = next r5 (step (bump 0 0 3 refl refl refl)) in
    let r7 = next r6 (step (move 0 _ (omega arith) (count refl))) in
    let r8 = next r7 (step (move 0 _ (omega arith) (load refl))) in
    let r9 = next r8 (step (move 0 _ (omega arith) (store (v + 1 + 1) refl))) in
    let r10 = next r9 (step (move 0 _ (omega arith) (deref 0 refl))) in
    let r11 = next r10 (step (assign 0 0 3 refl)) in
    let r12 = next r11 (write_version _ v) in
    let r13 = next r12 (step (take_version 0 1 refl)) in
    let r14 = next r13 (step (add 0 1 (v + 1) refl)) in
    let r15 = next r14 (step (splice refl)) in
    let r16 = next r15 (step (start refl)) in
    let r17 = next r16 (step (see_version 0 (v + 1) refl)) in
    let r18 = next r17 (step (see_counter 0 (v + 1) refl)) in
    let r19 = next r18 (
      step (
        decide (v + 1) refl (λ i l.
          let e : (i == 0) ≡ true = ground arith in (v + 1 + 1, 1, rw e refl, rw e refl)))) in
    let r20 = next r19 (
      step
        (call (v + 1) (request 1 (v + 1)) (request 0 (v + 1) ∷ []) [] refl refl (ground arith))) in
    (_, r20, refl, refl)
