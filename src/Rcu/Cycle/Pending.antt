-- ===== src/Rcu/Cycle/Pending.antt =====
-- A namespace that waits for its removal, in a pass of the worker.
use light_rcu.Prelude.{
  ℕ, ◌<◌, ◌≡◌, refl, true, none, some, List, ◌∷◌, ◌==◌, lt→ltb, ok, assert_failed, arith,
}
use light_rcu.Qsort.{Qsort}
use light_rcu.Range.{Range, Slots}
use light_rcu.Rcu.State.{LrcuPtr, Namespace, Handler, World}
use light_rcu.Rcu.Writer.{write_barrier_ns}
use light_rcu.Rcu.Worker.{Round, reclaim}
use light_rcu.Rcu.Cycle.{remove_pending, settle, pass_ns}

-- If a namespace that `lrcu_ns_deinit_safe` has taken out of `ns` still has a request that waits for
-- a reader when the worker has served it, the pass of the worker fails the assertion of
-- `lrcu_write_barrier_ns`.
pub pass_ns-pending :
    (q : Qsort Range) (now : ℕ → ℕ) (w : World) (hp id p : ℕ) (h : Handler) (ns : Namespace)
    (ranges : Slots) (round : Round) (x : LrcuPtr) (xs : List LrcuPtr)
    → w.handler ≡ some hp
    → w.handlers hp ≡ some h
    → id < w.ns_max
    → h.ns id ≡ none
    → w.namespaces p ≡ some ns
    → reclaim q now ranges ns w.infos ≡ ok round
    → round.ns.worker_list ≡ x ∷ xs
    → pass_ns q now hp id p ranges w ≡ assert_failed
unfolding pass_ns remove_pending settle write_barrier_ns
pass_ns-pending q now w hp id p h ns ranges round x xs has_handler has_h fits taken has_ns runs
      waits =
    let same : (p == p) ≡ true = ground arith in
    rw (has_ns, runs, same, has_h, waits)
      (rw (has_handler, settle) (rw (has_h, lt→ltb id w.ns_max fits) (rw taken refl)))
