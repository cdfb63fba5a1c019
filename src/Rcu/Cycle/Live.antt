-- ===== src/Rcu/Cycle/Live.antt =====
-- A pass of the worker over a namespace in use.
use light_rcu.Prelude.{ℕ, ◌+◌, ◌%◌, ◌<◌, ◌≡◌, true, if◌then◌else◌, ◌&&◌, some, update}
use light_rcu.Qsort.{Qsort}
use light_rcu.Range.{Range, Slots, u64_mod}
use light_rcu.Rcu.State.{Namespace, Handler, World}
use light_rcu.Rcu.Writer.{bump}
use light_rcu.Rcu.Worker.{Round, is_empty}
use light_rcu.Rcu.Worker.Reclaim.{CanReclaim}
use light_rcu.Rcu.Cycle.{push_calls}

-- What the pass leaves, after a round that collects and serves requests.
pub record Passes (w : World) (p : ℕ) (round : Round) (w' : World) : Type 0 where
  pub ns' : Namespace
  pub has_ns : w'.namespaces p ≡ some ns'
  pub called : w'.called ≡ push_calls round.calls w.called
  pub next_version : ns'.version ≡ (round.ns.version + 1) % u64_mod
  pub same_list : ns'.worker_list ≡ round.ns.worker_list
  pub same_hlist : ns'.worker_hlist ≡ round.ns.worker_hlist
  pub all_processed :
      (is_empty round.ns.worker_list && is_empty round.ns.worker_hlist) ≡ true
      → ns'.processed_version ≡ ns'.version

-- What the end of the pass makes of the namespace that the round left.
abbrev settled : Namespace → Namespace
settled ns =
    if is_empty ns.worker_list && is_empty ns.worker_hlist
    then record (bump ns) { processed_version = (bump ns).version }
    else bump ns

module _ (q : Qsort Range) (now : ℕ → ℕ) (w : World) (hp id p : ℕ) (h : Handler) (ns : Namespace)
    (ranges : Slots) (has_handler : w.handler ≡ some hp) (has_h : w.handlers hp ≡ some h)
    (fits : id < w.ns_max) (visible : h.ns id ≡ some p) (known : h.worker_ns id ≡ some p)
    (has_ns : w.namespaces p ≡ some ns) (can : CanReclaim ns w.infos) where
  abbrev world_settled : Round → World
  world_settled round = record w {
    namespaces =
        update (update (update w.namespaces p (some round.ns)) p (some (bump round.ns))) p
          (some (settled round.ns));
    infos = round.infos;
    called = push_calls round.calls w.called;
  }
