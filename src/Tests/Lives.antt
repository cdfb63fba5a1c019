-- ===== src/Tests/Lives.antt =====
-- The wait of a barrier, and the start and the end of the library, on small stores.
use light_rcu.Prelude.{
  ℕ, zero, suc, ◌≡◌, ◌≤◌, ◌<◌, ◌||◌, refl, true, false, none, some, ok, assert_failed, arith,
}
use light_rcu.Range.{Slots}
use light_rcu.Rcu.State.{Handler, World, M, stop, ◌>>◌}
use light_rcu.Rcu.Writer.Handover.{CanWrite}
use light_rcu.Rcu.Admin.Creation.{Made}
use light_rcu.Rcu.Cycle.{settle, pass_all}
use light_rcu.Rcu.Barrier.{wait_processed}
use light_rcu.Rcu.Barrier.Wait.{wait_processed-settle}
use light_rcu.Rcu.Life.{is_stop, worker_start, worker_rounds, worker_end, init}
use light_rcu.Rcu.Life.Start.{started, started-CanMake, init-Made}
use light_rcu.Rcu.Life.Stop.{Passing, init-fails}
use light_rcu.Tests.Sorting.{insertion}
use light_rcu.Tests.Worlds.{one_world, one_ns, one_handler, has_ns, no_ns}

abbrev no_ranges : Slots
no_ranges i = record { minv = 0; maxv = 0 }

abbrev nothing_else : M (Unit {0})
nothing_else w = ok (tt, w)

can_write : CanWrite (one_world has_ns) 0
can_write = record {
  hp = 1;
  h = one_handler has_ns;
  p = 3;
  ns = one_ns;
  handler_eq = refl;
  handlers_eq = refl;
  id_fits = omega arith;
  ns_eq = refl;
  namespaces_eq = refl;
  version_fits = omega arith;
  list_free = refl;
}

wait_processed-settle_example :
    (k : ℕ) × (w' : World) × (wait_processed (λ j. settle 0 3) 3 7 2 0 (one_world has_ns)
      ≡ ok (k, w'))
    × (k ≤ 1)
unfolding can_write
wait_processed-settle_example =
    wait_processed-settle (one_world has_ns) 0 can_write 7 0 refl (omega arith)

init-Made_example :
    (w' : World) × (init
        (λ k. worker_start 2 6 (some 9))
        nothing_else
        2
        (some 6)
        true
        (some 3)
        true
        (one_world no_ns)
      ≡ ok (some 6, w'))
    × Made
        (started (one_world no_ns) 6 2 9)
        0
        (started-CanMake (one_world no_ns) 6 2 9 (omega arith))
        w'
init-Made_example = init-Made (one_world no_ns) 6 2 9 nothing_else 0 3 (omega arith)

init-fails_example :
    init
      (λ j. worker_start 2 6 (some 9))
      (do
        worker_rounds insertion (λ k j. 5) (λ k. false) (λ k. nothing_else) 2 6 1 0 no_ranges
        worker_end 2 6)
      2
      (some 6)
      true
      none
      true
      (one_world no_ns)
    ≡ assert_failed
init-fails_example =
    init-fails (one_world no_ns) 6 2 9 0 refl insertion (λ k j. 5) (λ k. false) (λ k. nothing_else)
      0 0 0 no_ranges true

-- A round over no namespace, in whose sleep the worker is told to stop.
abbrev told : World
told = record (one_world no_ns) {
  handlers = λ i. some (record (one_handler no_ns) { worker_state = stop });
}

abbrev tell : ℕ → M (Unit {0})
tell j w =
    ok (tt, record w { handlers = λ i. some (record (one_handler no_ns) { worker_state = stop }) })

abbrev tell_worlds : ℕ → World
tell_worlds zero = one_world no_ns
tell_worlds (suc i) = told

abbrev tell_handlers : ℕ → Handler
tell_handlers zero = one_handler no_ns
tell_handlers (suc i) = record (one_handler no_ns) { worker_state = stop }

tell-handlers : (j : ℕ) → j ≤ 1 → (tell_worlds j).handlers 1 ≡ some (tell_handlers j)
tell-handlers zero l = refl
tell-handlers (suc i) l = refl

tell-passes :
    (j : ℕ)
    → j < 1
    → pass_all insertion (λ i. 5) 1 (tell_worlds j).ns_max 0 no_ranges (tell_worlds j)
      ≡ ok (no_ranges, one_world no_ns)
unfolding pass_all
tell-passes zero l = refl
tell-passes (suc i) l = ground arith

tell-sleeps : (j : ℕ) → j < 1 → tell j (one_world no_ns) ≡ ok (tt, tell_worlds (suc j))
tell-sleeps zero l = refl
tell-sleeps (suc i) l = ground arith

abbrev tell_passing : Passing insertion (λ k j. 5) (λ k. false) tell 4 1 1
tell_passing = record {
  worlds = tell_worlds;
  during = λ j. one_world no_ns;
  handler = tell_handlers;
  ranges = λ j. no_ranges;
  handlers_eq = tell-handlers;
  passes = tell-passes;
  sleeps = tell-sleeps;
}

tell-before : (j : ℕ) → j < 1 → (is_stop (tell_handlers j).worker_state || false) ≡ false
tell-before zero l = refl
tell-before (suc i) l = ground arith
