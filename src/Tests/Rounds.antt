-- ===== src/Tests/Rounds.antt =====
-- A reader that entered its section between two replacements, and the round of the worker that follows.
use light_rcu.Prelude.{ℕ, ◌≡◌, ◌≢◌, refl, true, false, Option, some, [], ◌∷◌, ok, All, arith}
use light_rcu.Rcu.State.{ThreadInfo, LrcuPtr, Namespace}
use light_rcu.Rcu.Reader.{nest}
use light_rcu.Rcu.Worker.{Round, reclaim}
use light_rcu.Rcu.Worker.Reclaim.{CanReclaim}
use light_rcu.Rcu.Interleave.{
  Sys, Reach, here, later, lock, bump, assign, take_version, add, barrier, move, count, load, store,
  deref,
}
use light_rcu.Rcu.Interleave.Race.{start_at, start_at-Start}
use light_rcu.Rcu.Interleave.Replace.{Steps}
use light_rcu.Rcu.Interleave.Round.{Mirrors, Follows, reclaim-Steps, reclaim-Gone}
use light_rcu.Tests.Sorting.{insertion}
use light_rcu.Tests.Sections.{no_ranges, thread_with, busy_ns}

-- The object 0 was replaced at version 2; the reader entered its section at version 3, and holds the
-- object 1, which was replaced at version 4.
unfoldable two_waiting : (s : Sys) × (Reach 1 s) × ((s.threads 0).holds 1 ≡ true)
unfolding nest
two_waiting =
    let r1 : Reach 1 (start_at 1) = here (start_at-Start 1) in
    let r2 = later r1 (lock 0 refl) in
    let r3 = later r2 (bump 0 0 1 refl refl refl) in
    let r4 = later r3 (assign 0 0 1 refl) in
    let r5 = later r4 (take_version 0 0 refl) in
    let r6 = later r5 (add 0 0 2 refl) in
    let r7 = later r6 barrier in
    let r8 = later r7 (move 0 _ (omega arith) (count refl)) in
    let r9 = later r8 (move 0 _ (omega arith) (load refl)) in
    let r10 = later r9 (move 0 _ (omega arith) (store 3 refl)) in
    let r11 = later r10 (move 0 _ (omega arith) (deref 0 refl)) in
    let r12 = later r11 (bump 0 0 3 refl refl refl) in
    let r13 = later r12 (assign 0 0 3 refl) in
    let r14 = later r13 (take_version 0 1 refl) in
    let r15 = later r14 (add 0 1 4 refl) in (_, r15, refl)

abbrev waiting : ℕ → ℕ → LrcuPtr
waiting p v = record { ptr = p; deinit = 9; version = v; ns_id = 0 }

abbrev late_reader : ℕ → Option ThreadInfo
late_reader p = some (thread_with (record { version = 3; counter = 1 }))

abbrev waiting_ns : Namespace
waiting_ns = record busy_ns {
  threads = 0 ∷ [];
  free_list = waiting 1 4 ∷ waiting 0 2 ∷ [];
  worker_list = [];
  version = 4;
}

waiting_ns-CanReclaim : CanReclaim waiting_ns late_reader
waiting_ns-CanReclaim = record {
  gather = record {
    lock_free = refl;
    small = omega arith;
    readers = (omega arith, tt);
    hung_readers = tt;
    fits = omega arith;
  };
  list_free = refl;
  hlist_free = refl;
  short = omega arith;
  heads_short = omega arith;
  made = (omega arith, (omega arith, tt));
  heads_made = tt;
}

two_waiting-Mirrors : Mirrors waiting_ns late_reader 1 two_waiting.0
unfolding two_waiting nest
two_waiting-Mirrors = record {
  same_free = refl;
  same_work = refl;
  rests = refl;
  sections = λ i l. let e : i ≡ 0 = omega arith in (0, refl, rw e refl);
}

reclaim-Steps_example :
    (round : Round) × (reclaim insertion (λ p. 5) no_ranges waiting_ns late_reader ≡ ok round)
    × (y : Sys) × Steps 1 two_waiting.0 y
    × Follows round two_waiting.0 y
reclaim-Steps_example =
    reclaim-Steps insertion (λ p. 5) no_ranges waiting_ns late_reader waiting_ns-CanReclaim refl
      refl 1 two_waiting.0 two_waiting-Mirrors

reclaim-Gone_example :
    (round : Round) × (reclaim insertion (λ p. 5) no_ranges waiting_ns late_reader ≡ ok round)
    × All
        (λ c.
          ((i : ℕ) → (two_waiting.0.threads i).holds c.arg ≡ false)
          × ((c' : ℕ) → two_waiting.0.cells c' ≢ c.arg))
        round.calls
reclaim-Gone_example =
    reclaim-Gone insertion (λ p. 5) no_ranges waiting_ns late_reader waiting_ns-CanReclaim refl refl
      1 two_waiting.0 two_waiting-Mirrors two_waiting.1
