-- ===== src/Tests/Worlds.antt =====
-- A store with one handler, one namespace and one thread: the theorems on its operations.
use light_rcu.Prelude.{
  inr, false, ℕ, ◌≡◌, refl, true, Option, none, some, ok, assert_failed, [], ◌∷◌, arith, ◌==◌,
}
use light_rcu.Spinlock.{unlocked}
use light_rcu.Rcu.State.{ThreadInfo, Namespace, running, Handler, World, ◌>>◌, ◌>>=◌}
use light_rcu.Rcu.Reader.Nesting.{CanRead}
use light_rcu.Rcu.Writer.{assign_pointer_ns, call_ns}
use light_rcu.Rcu.Writer.Handover.{CanWrite}
use light_rcu.Rcu.Interleave.{Sys, Thread, idle, inside}
use light_rcu.Rcu.Interleave.Race.{start_at}
use light_rcu.Rcu.Interleave.Code.{Moves, IsPlaced, read_section, read_section-Moves}
use light_rcu.Rcu.Interleave.Replace.{Steps, Agrees, assign_pointer-Steps}
use light_rcu.Rcu.Admin.{ns_deinit_safe, thread_set_ns, thread_del_ns}
use light_rcu.Rcu.Admin.Creation.{CanMake}
use light_rcu.Rcu.Admin.Removal.{ns_deinit_safe-fails}
use light_rcu.Rcu.Admin.Joining.{CanJoin, Parted, thread_set_ns-thread_del_ns}

abbrev pub one_handler : (ℕ → Option ℕ) → Handler
one_handler ns = record {
  ns_lock = unlocked;
  ns = ns;
  worker_ns = ns;
  worker_ti = some 4;
  worker_state = running;
  worker_timeout = 50;
}

abbrev one_info : ThreadInfo
one_info = record {
  h = 1;
  timeval = λ i. 0;
  lns = λ i. record { version = 2; counter = 1 };
  hung_lns = λ i. record { version = 0; counter = 0 };
}

abbrev pub one_ns : Namespace
one_ns = record {
  write_lock = unlocked;
  processed_version = 0;
  sync_timeout = 100;
  threads_lock = unlocked;
  threads = 4 ∷ [];
  hung_threads = [];
  id = 0;
  list_hlock = unlocked;
  free_hlist = [];
  worker_hlist = [];
  list_lock = unlocked;
  free_list = [];
  worker_list = [];
  version = 7;
}

abbrev pub one_world : (ℕ → Option ℕ) → World
one_world ns = record {
  ns_max = 1;
  handler = some 1;
  handlers = λ i. some (one_handler ns);
  namespaces = λ i. some one_ns;
  infos = λ i. some one_info;
  tls = λ i. some 5;
  cells = λ i. 0;
  called = [];
}

abbrev pub has_ns : ℕ → Option ℕ
has_ns i = some 3

abbrev pub no_ns : ℕ → Option ℕ
no_ns i = none

one_world-CanRead : CanRead (one_world has_ns) 0 0
one_world-CanRead = record {
  hp = 1;
  h = one_handler has_ns;
  p = 3;
  ns = one_ns;
  t = 5;
  info = one_info;
  handler_eq = refl;
  handlers_eq = refl;
  id_fits = omega arith;
  ns_eq = refl;
  namespaces_eq = refl;
  tls_eq = refl;
  infos_eq = refl;
}

one_world-CanWrite : CanWrite (one_world has_ns) 0
one_world-CanWrite = record {
  hp = 1;
  h = one_handler has_ns;
  p = 3;
  ns = one_ns;
  handler_eq = refl;
  handlers_eq = refl;
  id_fits = omega arith;
  ns_eq = refl;
  namespaces_eq = refl;
  version_fits = omega arith;
  list_free = refl;
}

one_world-CanJoin : CanJoin (one_world has_ns) 0 0
unfolding one_world-CanRead
one_world-CanJoin = record {
  can_read = one_world-CanRead;
  worker_eq = refl;
  back = refl;
  lock_free = refl;
  threads_free = refl;
}

one_world-CanMake : CanMake (one_world no_ns) 0
one_world-CanMake = record {
  hp = 1;
  h = one_handler no_ns;
  worker = 4;
  handler_eq = refl;
  handlers_eq = refl;
  id_fits = omega arith;
  unused = refl;
  not_pending = refl;
  worker_eq = refl;
  lock_free = refl;
}

thread_set_ns-thread_del_ns_example :
    (w' : World) × ((thread_set_ns 0 0 true >>= λ b. thread_del_ns 0 0) (one_world has_ns)
      ≡ ok (true, w'))
    × Parted (one_world has_ns) 0 0 one_world-CanJoin w'
unfolding one_world-CanJoin
thread_set_ns-thread_del_ns_example =
    thread_set_ns-thread_del_ns (one_world has_ns) 0 0 one_world-CanJoin (omega arith)

ns_deinit_safe-fails_example : ns_deinit_safe 0 (one_world has_ns) ≡ assert_failed
ns_deinit_safe-fails_example =
    ns_deinit_safe-fails (one_world has_ns) 1 0 3 (one_handler has_ns) refl refl (omega arith) refl
      refl

-- A thread of the interleaved system with the same `lns`, and a system with the same namespace.
abbrev one_thread : Thread
one_thread = record { lns = one_info.lns 0; pc = inside; holds = λ p. false }

abbrev one_sys : Sys
one_sys = record (start_at 7) { cells = λ i. 0; owner = some 0; used = λ p. p == 0 }

read_section-Moves_example :
    (u v : Thread) × Moves 7 (λ i. 0) one_thread u
    × (u.holds 0 ≡ true)
    × Moves 7 (λ i. 0) u v
    × (w : World) × (read_section 0 0 2 (one_world has_ns) ≡ ok (0, w))
    × (info : ThreadInfo) × (w.infos 5 ≡ some info)
    × (info.lns 0 ≡ v.lns)
    × IsPlaced v
unfolding one_world-CanRead
read_section-Moves_example =
    read_section-Moves (one_world has_ns) 0 0 2 one_world-CanRead one_thread refl
      (inr (refl, omega arith)) (omega arith)

assign_pointer-Steps_example :
    (w : World) × (ns : Namespace) × (y : Sys) × ((assign_pointer_ns 0 2 11 >> call_ns true 0 0 9)
        (one_world has_ns)
      ≡ ok (tt, w))
    × (w.namespaces 3 ≡ some ns)
    × Steps 1 one_sys y
    × Agrees ns w.cells y
    × (y.writers 0 ≡ idle)
unfolding one_world-CanWrite
assign_pointer-Steps_example =
    assign_pointer-Steps (one_world has_ns) 0 one_world-CanWrite 2 11 9 1 0 one_sys (omega arith)
      (record { same_version = refl; same_cells = refl; same_requests = refl }) refl refl refl
