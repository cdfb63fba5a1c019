-- ===== src/Tests/Clients.antt =====
-- A program beside a store with one handler and one namespace: the theorems on the examples.
use light_rcu.Prelude.{
  ℕ, ◌≡◌, refl, true, false, Option, none, some, ok, [], arith, ◌==◌, if◌then◌else◌, ltb, lt→ltb,
}
use light_rcu.Prelude.Commands.{◌>>=◌}
use light_rcu.Spinlock.{spin_lock, spin_unlock}
use light_rcu.Rcu.Writer.Handover.{CanWrite}
use light_rcu.Rcu.Admin.{thread_init, new_info, thread_set_ns, lock_handler, unlock_handler}
use light_rcu.Rcu.Life.{thread_init_default}
use light_rcu.Examples.{Client, library}
use light_rcu.Examples.Simple.{writer_section, shared_data_release}
use light_rcu.Examples.Simple.Rounds.{Replaced, round-Replaced}
use light_rcu.Examples.Host.{Host, failure, run_test}
use light_rcu.Examples.Host.Failures.{Dangling, run_test-Dangling}
use light_rcu.Tests.Worlds.{one_handler, one_ns, one_world, has_ns}

-- The cell 0 has the object 9.
abbrev one_client : Client
one_client = record {
  world = record (one_world has_ns) { cells = λ c. if c == 0 then 9 else c };
  objects = λ p. if p == 9 then some (record { c = 4; shptr = 64 }) else none;
}

one_client-CanWrite : CanWrite one_client.world 0
one_client-CanWrite = record {
  hp = 1;
  h = one_handler has_ns;
  p = 3;
  ns = one_ns;
  handler_eq = refl;
  handlers_eq = refl;
  id_fits = omega arith;
  ns_eq = refl;
  namespaces_eq = refl;
  version_fits = omega arith;
  list_free = refl;
}

round-Replaced_example :
    (k : Client) × ((writer_section (some 11) 64 0 >>= shared_data_release true) one_client
      ≡ ok (tt, k))
    × Replaced one_client 0 11 64 one_client-CanWrite (record { c = 4; shptr = 64 }) k
unfolding one_client-CanWrite
round-Replaced_example =
    round-Replaced one_client 0 11 64 one_client-CanWrite (record { c = 4; shptr = 64 })
      (omega arith) refl (omega arith) (omega arith) (omega arith) refl (omega arith)

-- The program before `run_test`, whose third thread is not created.
abbrev one_host : Host
one_host = record { client = one_client; running = []; has_shptr = false; has_tids = false }

thread_begun :
    (t : Option ℕ) × (c : Client) × (library (thread_init_default 0 (some 8) true) one_client
      ≡ ok (t, c))
unfolding thread_init_default thread_init new_info thread_set_ns spin_lock spin_unlock lock_handler
    unlock_handler
thread_begun = (_, _, refl)

run_test-Dangling_example :
    (h : Host) × (run_test (λ k. ltb k 2) (λ k. ok (tt, k)) 0 (some 8) true true true 2 1 one_host
      ≡ ok (failure, h))
    × Dangling 2 h
run_test-Dangling_example =
    run_test-Dangling (λ k. ltb k 2) (λ k. ok (tt, k)) 0 (some 8) true 2 1 2 one_host thread_begun.0
      thread_begun.1 refl thread_begun.2 (omega arith) (omega arith) (λ i l. lt→ltb i 2 l) refl
