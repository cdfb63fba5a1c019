-- ===== src/Rcu/Barrier/Removal.antt =====
-- `lrcu_ns_deinit`.
use light_rcu.Prelude.{ℕ, ◌<◌, ◌≡◌, refl, true, some, lt→ltb, Option, assert_failed, ◌==◌, arith}
use light_rcu.Qsort.{Qsort}
use light_rcu.Range.{Range, Slots}
use light_rcu.Spinlock.Word.{IsFree, spin_lock-free}
use light_rcu.Rcu.State.{ThreadInfo, Namespace, Handler, World, M}
use light_rcu.Rcu.Writer.{write_barrier_ns}
use light_rcu.Rcu.Admin.{lock_handler}
use light_rcu.Rcu.Barrier.{ns_deinit}

-- `lrcu_ns_deinit` on a namespace that exists, with a free lock, fails the assertion of
-- `lrcu_write_barrier_ns`, since it has cleared the namespace's slot before: it never reaches its wait.
pub ns_deinit-fails :
    (q : Qsort Range) (now : ℕ → ℕ → ℕ)
    (others : ℕ → Namespace × (ℕ → Option ThreadInfo) → Namespace × (ℕ → Option ThreadInfo))
    (sleep : ℕ → M (Unit {0})) (fuel : ℕ) (ranges : Slots) (me : ℕ) (w : World) (hp id p : ℕ)
    (h : Handler)
    → w.handler ≡ some hp
    → w.handlers hp ≡ some h
    → id < w.ns_max
    → h.ns id ≡ some p
    → IsFree h.ns_lock
    → ns_deinit q now others sleep fuel ranges me id w ≡ assert_failed
unfolding ns_deinit lock_handler write_barrier_ns
ns_deinit-fails q now others sleep fuel ranges me w hp id p h has_handler has_h fits has_ns free =
    let here : (hp == hp) ≡ true = ground arith in
    let there : (id == id) ≡ true = ground arith in
    rw (has_handler, has_h, spin_lock-free h.ns_lock free, here)
      (rw (lt→ltb id w.ns_max fits, has_ns, here) (rw (lt→ltb id w.ns_max fits, there) refl))
