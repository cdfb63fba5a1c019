-- ===== src/Tests/Interleavings.antt =====
-- One reader and one writer at the start, at version 7: an object that is replaced and destroyed.
use light_rcu.Prelude.{ℕ, ◌≡◌, ◌≢◌, refl, true, false, none, [], ◌∷◌, ◌++◌, All, ◌==◌, arith}
use light_rcu.Rcu.Interleave.{
  Sys, Reach, here, later, lock, bump, assign, take_version, add, splice, start, see_version,
  see_counter, decide, call, request, outside, inside,
}
use light_rcu.Rcu.Interleave.Atomic.{Undisturbed, RacyReach-Gone}
use light_rcu.Rcu.Interleave.Once.{Reach-first_call}
use light_rcu.Rcu.Interleave.Hang.{Watch, WatchReach, unwatched, hang-breaks}
use light_rcu.Rcu.Interleave.Race.{
  RacyReach, begin, next, step, read_version, write_version, start_at, race-breaks, start_at-Start,
}

-- The system behind the splice, with the request for the object 0.
waiting_reached : (s : Sys) × (Reach 1 s) × (s.worker_list ≡ request 0 8 ∷ [])
waiting_reached =
    let r1 : Reach 1 (start_at 7) = here (start_at-Start 7) in
    let r1' = later r1 (lock 0 refl) in
    let r2 = later r1' (bump 0 0 1 refl refl refl) in
    let r3 = later r2 (assign 0 0 1 refl) in
    let r4 = later r3 (take_version 0 0 refl) in
    let r5 = later r4 (add 0 0 8 refl) in let r6 = later r5 (splice refl) in (_, r6, refl)

-- The same after a raise of the version by the worker, the replacement, and the call of the destructor.
called_reached :
    (s : Sys) × (r : RacyReach 1 (start_at 7) s none) × Undisturbed r × (s.called 0 ≡ true)
called_reached =
    let r0 : RacyReach 1 (start_at 7) (start_at 7) none = begin in
    let r1 = next r0 (read_version (start_at 7)) in
    let r2 = next r1 (write_version _ 7) in
    let r3 = next r2 (step (lock 0 refl)) in
    let r4 = next r3 (step (bump 0 0 1 refl refl refl)) in
    let r5 = next r4 (step (assign 0 0 1 refl)) in
    let r6 = next r5 (step (take_version 0 0 refl)) in
    let r7 = next r6 (step (add 0 0 9 refl)) in
    let r8 = next r7 (step (splice refl)) in
    let r9 = next r8 (step (start refl)) in
    let r10 = next r9 (step (see_version 0 9 refl)) in
    let r11 = next r10 (step (see_counter 0 9 refl)) in
    let r12 = next r11 (
      step (
        decide 9 refl
          (λ i l. let e : (i == 0) ≡ true = ground arith in (0, 0, rw e refl, rw e refl)))) in
    let r13 = next r12 (step (call 9 (request 0 9) [] [] refl refl refl)) in
    (_, r13, (tt, refl), refl)

RacyReach-Gone_example :
    ((i : ℕ) → (called_reached.0.threads i).holds 0 ≡ false)
    × ((c : ℕ) → called_reached.0.cells c ≢ 0)
RacyReach-Gone_example =
    RacyReach-Gone (start_at-Start 7) called_reached.1 called_reached.2 0 called_reached.3

Reach-first_call_example :
    (waiting_reached.0.called 0 ≡ false) × All (λ q. q.ptr ≢ 0) ([] ++ waiting_reached.0.free_list)
Reach-first_call_example = Reach-first_call waiting_reached.1 (request 0 8) [] waiting_reached.2

race-breaks_example :
    (t : Sys) × RacyReach 1 (start_at 7) t none
    × (t.called 1 ≡ true)
    × ((t.threads 0).holds 1 ≡ true)
race-breaks_example = race-breaks 7

hang-breaks_example :
    (m : Sys) × (w : Watch) × (WatchReach 1 (start_at 7) unwatched m w)
    × (w.is_hung 0 ≡ true)
    × ((m.threads 0).pc ≡ outside)
    × (t : Sys) × (w' : Watch) × (WatchReach 1 m w t w')
    × ((t.threads 0).pc ≡ inside)
    × (t.called 1 ≡ true)
    × ((t.threads 0).holds 1 ≡ true)
hang-breaks_example = hang-breaks 7
