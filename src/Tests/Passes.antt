-- ===== src/Tests/Passes.antt =====
-- A pass of the worker over a namespace.
use light_rcu.Prelude.{◌≡◌, refl, none, some, Run, ok, assert_failed, [], ◌∷◌, arith}
use light_rcu.Range.{
  tree_init, cmp_ranges, overlap_loop, overlap_body, overlap_rounds, remove_overlapping,
  ensure_sorted, optimize, add_retry, add, getmin, value_cmp, search_loop, range_search, find,
}
use light_rcu.Spinlock.{draw, is_served, spin_lock, spin_unlock}
use light_rcu.Rcu.State.{Handler, World, running}
use light_rcu.Rcu.Sync.{
  hangs, busy_info, idle_info, is_ahead, goes_back, add_window, scan_threads, scan_hung,
  get_synchronized,
}
use light_rcu.Rcu.Worker.{Round, splice, collect, process, processed, process_all, reclaim}
use light_rcu.Rcu.Cycle.{pass_ns}
use light_rcu.Rcu.Cycle.Pending.{pass_ns-pending}
use light_rcu.Spinlock.{unlocked}
use light_rcu.Tests.Sorting.{insertion, insertion_sort, insert, is_more}
use light_rcu.Tests.Sections.{no_ranges, one_reader, request, busy_ns}

-- The namespace is in `worker_ns`, and no longer in `ns`.
abbrev pending_handler : Handler
pending_handler = record {
  ns_lock = unlocked;
  ns = λ i. none;
  worker_ns = λ i. some 3;
  worker_ti = some 1;
  worker_state = running;
  worker_timeout = 50;
}

abbrev pending_world : World
pending_world = record {
  ns_max = 1;
  handler = some 1;
  handlers = λ i. some pending_handler;
  namespaces = λ i. some busy_ns;
  infos = one_reader;
  tls = λ i. some 1;
  cells = λ i. 0;
  called = [];
}

abbrev round_of : Run Round → Round
round_of (ok r) = r
round_of _ = record { ns = busy_ns; infos = one_reader; ranges = no_ranges; calls = [] }

abbrev pending_round : Round
pending_round = round_of (reclaim insertion (λ k. 5) no_ranges busy_ns one_reader)

pending_round-runs : reclaim insertion (λ k. 5) no_ranges busy_ns one_reader ≡ ok pending_round
unfolding tree_init cmp_ranges overlap_loop overlap_body overlap_rounds remove_overlapping
    ensure_sorted optimize add_retry add getmin value_cmp search_loop range_search find draw
    is_served spin_lock spin_unlock hangs busy_info idle_info is_ahead goes_back add_window
    scan_threads scan_hung get_synchronized splice collect process processed process_all reclaim
    insertion_sort insert is_more
pending_round-runs = refl

-- The request of version 3 waits for the reader.
pending_round-waits : pending_round.ns.worker_list ≡ request 3 ∷ []
unfolding tree_init cmp_ranges overlap_loop overlap_body overlap_rounds remove_overlapping
    ensure_sorted optimize add_retry add getmin value_cmp search_loop range_search find draw
    is_served spin_lock spin_unlock hangs busy_info idle_info is_ahead goes_back add_window
    scan_threads scan_hung get_synchronized splice collect process processed process_all reclaim
    insertion_sort insert is_more
pending_round-waits = refl

pass_ns-pending_example : pass_ns insertion (λ k. 5) 1 0 3 no_ranges pending_world ≡ assert_failed
pass_ns-pending_example =
    pass_ns-pending insertion (λ k. 5) pending_world 1 0 3 pending_handler busy_ns no_ranges
      pending_round (request 3) [] refl refl (omega arith) refl refl pending_round-runs
      pending_round-waits

abbrev live_handler : Handler
live_handler = record {
  ns_lock = unlocked;
  ns = λ i. some 3;
  worker_ns = λ i. some 3;
  worker_ti = some 1;
  worker_state = running;
  worker_timeout = 50;
}

abbrev live_world : World
live_world = record {
  ns_max = 1;
  handler = some 1;
  handlers = λ i. some live_handler;
  namespaces = λ i. some busy_ns;
  infos = one_reader;
  tls = λ i. some 1;
  cells = λ i. 0;
  called = [];
}
