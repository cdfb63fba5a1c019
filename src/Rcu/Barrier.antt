-- ===== src/Rcu/Barrier.antt =====
-- src/lrcu.c: `lrcu_barrier_ns`, which waits until the worker has served what it was given, and
-- `lrcu_ns_deinit`, on the store. What other threads do while a round of a wait sleeps is a function
-- of the round.
pub mod Wait
pub mod Removal
use light_rcu.Prelude.{
  ℕ, zero, suc, ◌+◌, Bool, true, false, Option, none, some, ltb, ◌==◌, if◌then◌else◌, update, ok,
  out_of_fuel,
}
use light_rcu.Prelude.Commands.{ensure}
use light_rcu.Qsort.{Qsort}
use light_rcu.Range.{Range, Slots}
use light_rcu.Rcu.State.{
  LocalNs, ThreadInfo, Namespace, World, M, pure, lift, ◌>>=◌, ◌>>◌, assert_some, deref, read,
  get_handler, get_ns, load_ns, load_ti,
}
use light_rcu.Rcu.Sync.{Synchronized, sync_rounds}
use light_rcu.Rcu.Worker.{ns_destructor}
use light_rcu.Rcu.Cycle.{store_option_ns}
use light_rcu.Rcu.Writer.{write_barrier_ns}
use light_rcu.Rcu.Admin.{
  store_handler, load_handler, get_handler_pointer, lock_handler, unlock_handler,
}

-- `LRCU_ASSERT(LRCU_GET_LNS_ID(ti, ns_id)->counter == 0)` behind its test of `ti`
abbrev pub outside_of : ℕ → Option ℕ → M (Unit {0})
outside_of id none = pure tt
outside_of id (some t) = do ti ← load_ti t; ensure ((ti.lns id).counter == 0)

unfoldable pub ensure_outside : ℕ → ℕ → M (Unit {0})
ensure_outside me id = do t ← read (λ w. w.tls me); outside_of id t

abbrev pub store_synchronized : ℕ → Synchronized → M (Unit {0})
store_synchronized p s w =
    ok (tt, record w { namespaces = update w.namespaces p (some s.ns); infos = s.infos })

-- The loop of `lrcu_barrier_ns` behind its read of the version: the round at which it stops.
unfoldable pub wait_processed : (ℕ → M (Unit {0})) → ℕ → ℕ → ℕ → ℕ → M ℕ
wait_processed sleep p current zero k = lift out_of_fuel
wait_processed sleep p current (suc fuel) k = do
  ns ← load_ns p
  if ltb current ns.processed_version
      then pure k
      else (do sleep k; wait_processed sleep p current fuel (k + 1))

module _ (q : Qsort Range) (now : ℕ → ℕ → ℕ)
    (others : ℕ → Namespace × (ℕ → Option ThreadInfo) → Namespace × (ℕ → Option ThreadInfo))
    (sleep : ℕ → M (Unit {0})) (fuel : ℕ) (ranges : Slots) where
  -- `lrcu_synchronize_ns` in the thread `me`
  unfoldable pub synchronize_store : ℕ → ℕ → M (Unit {0})
  synchronize_store me id = do
    ensure_outside me id
    h ← get_handler
    p ← get_ns h id
    ns ← load_ns p
    infos ← read (λ w. w.infos)
    (k, s) ← lift (sync_rounds q now others fuel 0 ns.version ranges (ns, infos))
    store_synchronized p s

  -- `lrcu_barrier_ns` in the thread `me`
  unfoldable pub barrier_ns : ℕ → ℕ → M ℕ
  barrier_ns me id = do
    synchronize_store me id
    ensure_outside me id
    h ← get_handler
    p ← get_ns h id
    ns ← load_ns p
    wait_processed sleep p ns.version fuel 0

  -- `lrcu_ns_deinit` in the thread `me`
  unfoldable pub ns_deinit : ℕ → ℕ → M (Unit {0})
  ns_deinit me id = do
    hp ← get_handler_pointer
    lock_handler hp
    h ← load_handler hp
    ns ← get_ns h id
    store_handler hp (record h { ns = update h.ns id none })
    write_barrier_ns id
    k ← barrier_ns me id
    h1 ← load_handler hp
    p ← deref (h1.worker_ns id)
    old ← load_ns p
    infos ← read (λ w. w.infos)
    left ← lift (ns_destructor old true infos)
    store_option_ns p left
    h2 ← load_handler hp
    store_handler hp (record h2 { worker_ns = update h2.worker_ns id none })
    unlock_handler hp
