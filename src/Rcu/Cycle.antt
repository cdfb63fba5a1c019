-- ===== src/Rcu/Cycle.antt =====
-- src/lrcu.c: what one pass of the loop in `lrcu_worker` does to a namespace, and one round of the
-- loop over all of them. The worker runs alone, and destructors that it calls are recorded.
pub mod Pending
pub mod Live
use light_rcu.Prelude.{
  ℕ, zero, suc, ◌+◌, Bool, true, false, not, ◌&&◌, Option, none, some, List, [], ◌∷◌, ◌++◌, ◌==◌,
  if◌then◌else◌, update, ok, undefined,
}
use light_rcu.Qsort.{Qsort}
use light_rcu.Range.{Range, Slots}
use light_rcu.Rcu.State.{
  Namespace, Handler, Call, World, M, pure, lift, ◌>>=◌, ◌>>◌, read, load_ns, store_ns,
}
use light_rcu.Rcu.Writer.{write_barrier_ns}
use light_rcu.Rcu.Worker.{Round, is_empty, reclaim, ns_destructor}
use light_rcu.Rcu.Admin.{store_handler, load_handler, lock_handler, unlock_handler, slot}

-- Equality of two pointers that may be null.
abbrev pub same_pointer : Option ℕ → Option ℕ → Bool
same_pointer none none = true
same_pointer none (some q) = false
same_pointer (some p) none = false
same_pointer (some p) (some q) = p == q

abbrev pub push_calls : List Call → List Call → List Call
push_calls [] called = called
push_calls (c ∷ cs) called = push_calls cs (c ∷ called)

-- The store after the part that collects and serves requests.
abbrev pub store_round : ℕ → Round → M (Unit {0})
store_round p r w = ok (
  tt,
  record w {
    namespaces = update w.namespaces p (some r.ns);
    infos = r.infos;
    called = push_calls r.calls w.called;
  },
)

abbrev pub store_option_ns : ℕ → Option Namespace → M (Unit {0})
store_option_ns p ns w = ok (tt, record w { namespaces = update w.namespaces p ns })

-- The tests of the free lists before the call of `lrcu_ns_destructor`, and the call; true if the namespace is gone.
unfoldable pub destroy : ℕ → Namespace → M Bool
destroy p ns =
    if is_empty ns.free_list && is_empty ns.free_hlist
    then (do
      infos ← read (λ w. w.infos)
      left ← lift (ns_destructor ns false infos)
      store_option_ns p left
      pure (elim left [ none ↦ true | some ns' ↦ false ]))
    else pure false

-- The block behind the comment on freed namespaces.
unfoldable pub remove_pending : ℕ → ℕ → ℕ → M Bool
remove_pending hp id p = do
  ns ← load_ns p
  h ← load_handler hp
  if is_empty ns.worker_list
        && is_empty ns.worker_hlist
        && not (same_pointer (h.worker_ns id) (h.ns id))
      then (do
        lock_handler hp
        h1 ← load_handler hp
        gone ← if not (same_pointer (h1.worker_ns id) (h1.ns id)) then destroy p ns else pure false
        h' ← load_handler hp
        store_handler hp
            (if gone then record h' { worker_ns = update h'.worker_ns id none } else h')
        unlock_handler hp
        pure gone)
      else pure false

-- The end of the pass: a new version, and `processed_version` if nothing is left to do.
unfoldable pub settle : ℕ → ℕ → M (Unit {0})
settle id p = do
  write_barrier_ns id
  ns ← load_ns p
  store_ns p (
      if is_empty ns.worker_list && is_empty ns.worker_hlist
      then record ns { processed_version = ns.version }
      else ns)

module _ (q : Qsort Range) (now : ℕ → ℕ) where
  -- The pass for a namespace that exists.
  unfoldable pub pass_ns : ℕ → ℕ → ℕ → Slots → M Slots
  pass_ns hp id p ranges = do
    ns ← load_ns p
    infos ← read (λ w. w.infos)
    r ← lift (reclaim q now ranges ns infos)
    store_round p r
    gone ← remove_pending hp id p
    if gone then pure tt else settle id p
    pure r.ranges

  abbrev pub pass_slot : ℕ → ℕ → Option ℕ → Slots → M Slots
  pass_slot hp id none ranges = pure ranges
  pass_slot hp id (some p) ranges = pass_ns hp id p ranges

  -- The loop over `n` namespaces from `id` on; the array of ranges is handed from one to the next.
  unfoldable pub pass_all : ℕ → ℕ → ℕ → Slots → M Slots
  pass_all hp zero id ranges = pure ranges
  pass_all hp (suc n) id ranges = do
    h ← load_handler hp
    p ← slot h.worker_ns id
    ranges' ← pass_slot hp id p ranges
    pass_all hp n (id + 1) ranges'
