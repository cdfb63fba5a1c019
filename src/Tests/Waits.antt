-- ===== src/Tests/Waits.antt =====
-- A wait for a reader that leaves its section and enters a later one.
use light_rcu.Prelude.{ℕ, zero, suc, ◌≤◌, refl, Option, some, ◌==◌, if◌then◌else◌, arith}
use light_rcu.Rcu.State.{ThreadInfo, Namespace}
use light_rcu.Rcu.Sync.{synchronize_ns, threads_max}
use light_rcu.Rcu.Sync.Gathers.{CanGather}
use light_rcu.Rcu.Sync.Ends.{
  Threads, Course, IsClear, Ends, EndsBy, synchronize_ns-Ends, synchronize_ns-EndsBy,
}
use light_rcu.Tests.Sorting.{insertion}
use light_rcu.Tests.Sections.{no_ranges, out_of_section, thread_with, one_reader, busy_ns}

abbrev next_ns : Namespace
next_ns = record busy_ns { version = 4 }

-- Thread 0 is in a section that it entered at version 4.
abbrev later_reader : ℕ → Option ThreadInfo
later_reader p =
    some (thread_with (if p == 0 then record { version = 4; counter = 1 } else out_of_section))

abbrev seen_states : ℕ → Threads
seen_states zero = (busy_ns, one_reader)
seen_states (suc k) = (next_ns, later_reader)

seen_states-CanGather : (k : ℕ) → CanGather (seen_states k).0 (seen_states k).1 threads_max
seen_states-CanGather zero = record {
  lock_free = refl;
  small = omega arith;
  readers = (omega arith, (omega arith, tt));
  hung_readers = tt;
  fits = omega arith;
}
seen_states-CanGather (suc k) = record {
  lock_free = refl;
  small = omega arith;
  readers = (omega arith, (omega arith, tt));
  hung_readers = tt;
  fits = omega arith;
}

seen_states-later : (k : ℕ) → 3 ≤ (seen_states k).0.version
seen_states-later zero = omega arith
seen_states-later (suc k) = omega arith

abbrev seen_course : Course insertion (λ k p. 5) (λ k st. seen_states (suc k)) 3
seen_course = record {
  states = seen_states;
  gathers = seen_states-CanGather;
  later = seen_states-later;
  steps = λ k ranges s runs. refl;
}

synchronize_ns-Ends_example : Ends seen_states 3 (
    synchronize_ns insertion
      (λ k p. 5)
      (λ k st. seen_states (suc k))
      5
      no_ranges
      busy_ns
      one_reader
      (some out_of_section))
synchronize_ns-Ends_example =
    synchronize_ns-Ends insertion (λ k p. 5) (λ k st. seen_states (suc k)) busy_ns one_reader
      out_of_section refl seen_course refl 5 no_ranges

-- The second round is clear.
seen_states-IsClear : IsClear 3 (seen_states 1)
seen_states-IsClear = ((refl, (refl, tt)), tt, 4, refl)

synchronize_ns-EndsBy_example : EndsBy seen_states 3 1 (
    synchronize_ns insertion
      (λ k p. 5)
      (λ k st. seen_states (suc k))
      5
      no_ranges
      busy_ns
      one_reader
      (some out_of_section))
synchronize_ns-EndsBy_example =
    synchronize_ns-EndsBy insertion (λ k p. 5) (λ k st. seen_states (suc k)) busy_ns one_reader
      out_of_section refl seen_course refl 5 no_ranges 1 seen_states-IsClear (omega arith)
