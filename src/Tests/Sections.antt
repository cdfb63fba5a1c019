-- ===== src/Tests/Sections.antt =====
-- A namespace with two threads: the theorems of `Rcu` and of `Spinlock` at concrete states.
use light_rcu.Prelude.{
  ℕ, ◌+◌, ◌≡◌, ◌==◌, refl, Option, some, [], ◌∷◌, if◌then◌else◌, ok, out_of_fuel, arith,
}
use light_rcu.Range.{range, Slots, tree_init}
use light_rcu.Spinlock.{unlocked}
use light_rcu.Rcu.State.{LocalNs, ThreadInfo, LrcuPtr, PtrHead, Namespace}
use light_rcu.Rcu.Sync.{Synchronized, get_synchronized, synchronize_ns, threads_max}
use light_rcu.Rcu.Sync.Gathers.{CanGather, Gathers, get_synchronized-Gathers}
use light_rcu.Rcu.Sync.Wait.{Resting, synchronize_ns-stuck}
use light_rcu.Rcu.Worker.{Round, reclaim, process_all}
use light_rcu.Rcu.Worker.Reclaim.{CanReclaim, Reclaims, reclaim-Reclaims}
use light_rcu.Rcu.Worker.Stale.{Stale, process_all-Stale}
use light_rcu.Tests.Sorting.{insertion}

abbrev pub no_ranges : Slots
no_ranges i = range 0 0

-- What an earlier pass may leave in the array.
abbrev old_ranges : Slots
old_ranges i = range 2 3

abbrev pub out_of_section : LocalNs
out_of_section = record { version = 2; counter = 0 }

abbrev pub in_section : LocalNs
in_section = record { version = 2; counter = 1 }

abbrev pub thread_with : LocalNs → ThreadInfo
thread_with l = record { h = 1; timeval = λ i. 0; lns = λ i. l; hung_lns = λ i. out_of_section }

-- Thread 0 is in a section that it entered at version 2; no other thread is in a section.
abbrev pub one_reader : ℕ → Option ThreadInfo
one_reader p = some (thread_with (if p == 0 then in_section else out_of_section))

abbrev no_reader : ℕ → Option ThreadInfo
no_reader p = some (thread_with out_of_section)

abbrev pub request : ℕ → LrcuPtr
request v = record { ptr = 70 + v; deinit = 9; version = v; ns_id = 0 }

abbrev head : ℕ → PtrHead
head v = record { address = 90 + v; func = 9; version = v; ns_id = 0 }

-- Version 3, with requests of versions 1 and 3.
abbrev pub busy_ns : Namespace
busy_ns = record {
  write_lock = unlocked;
  processed_version = 0;
  sync_timeout = 10;
  threads_lock = unlocked;
  threads = 0 ∷ 1 ∷ [];
  hung_threads = [];
  id = 0;
  list_hlock = unlocked;
  free_hlist = [];
  worker_hlist = [];
  list_lock = unlocked;
  free_list = request 3 ∷ [];
  worker_list = request 1 ∷ [];
  version = 3;
}

busy_ns-CanGather : CanGather busy_ns one_reader threads_max
busy_ns-CanGather = record {
  lock_free = refl;
  small = omega arith;
  readers = (omega arith, (omega arith, tt));
  hung_readers = tt;
  fits = omega arith;
}

pub busy_ns-CanReclaim : CanReclaim busy_ns one_reader
busy_ns-CanReclaim = record {
  gather = busy_ns-CanGather;
  list_free = refl;
  hlist_free = refl;
  short = omega arith;
  heads_short = omega arith;
  made = (omega arith, (omega arith, tt));
  heads_made = tt;
}

busy_ns-Resting : Resting busy_ns no_reader
busy_ns-Resting = record {
  lock_free = refl;
  small = omega arith;
  idle = (refl, (refl, tt));
  hung_idle = tt;
}

reclaim-Reclaims_example :
    (round : Round) × (reclaim insertion (λ p. 5) no_ranges busy_ns one_reader ≡ ok round)
    × Reclaims busy_ns one_reader round
reclaim-Reclaims_example =
    reclaim-Reclaims insertion (λ p. 5) no_ranges busy_ns one_reader busy_ns-CanReclaim

get_synchronized-Gathers_example :
    (out : Synchronized) × (get_synchronized insertion
        (λ p. 5)
        busy_ns
        one_reader
        (tree_init no_ranges threads_max)
      ≡ ok out)
    × Gathers busy_ns one_reader threads_max out
get_synchronized-Gathers_example =
    get_synchronized-Gathers insertion (λ p. 5) busy_ns one_reader no_ranges threads_max
      busy_ns-CanGather

-- The same with two requests of `lrcu_call_head`, one of them at a version in the old range.
abbrev mixed_ns : Namespace
mixed_ns = record busy_ns { worker_hlist = head 2 ∷ head 1 ∷ [] }

mixed_ns-Resting : Resting mixed_ns no_reader
mixed_ns-Resting = record {
  lock_free = refl;
  small = omega arith;
  idle = (refl, (refl, tt));
  hung_idle = tt;
}

synchronize_ns-stuck_example :
    synchronize_ns insertion
      (λ k p. 5)
      (λ k st. st)
      1000
      old_ranges
      busy_ns
      no_reader
      (some out_of_section)
    ≡ out_of_fuel
synchronize_ns-stuck_example =
    synchronize_ns-stuck insertion old_ranges (λ k p. 5) (λ k st. st) busy_ns no_reader
      out_of_section refl busy_ns-Resting refl (λ k st h. h) 1000

process_all-Stale_example :
    (round : Round) × (process_all insertion (λ p. 5) old_ranges mixed_ns no_reader ≡ ok round)
    × Stale old_ranges mixed_ns round
process_all-Stale_example =
    process_all-Stale insertion (λ p. 5) old_ranges mixed_ns no_reader mixed_ns-Resting
      (omega arith) (omega arith)
