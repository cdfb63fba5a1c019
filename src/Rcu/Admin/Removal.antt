-- ===== src/Rcu/Admin/Removal.antt =====
-- The removal of a namespace: `lrcu_ns_deinit_safe`.
use light_rcu.Prelude.{ℕ, ◌<◌, ◌≡◌, refl, true, some, lt→ltb, assert_failed, ◌==◌, arith}
use light_rcu.Spinlock.Word.{IsFree, spin_lock-free}
use light_rcu.Rcu.State.{Handler, World}
use light_rcu.Rcu.Writer.{write_barrier_ns}
use light_rcu.Rcu.Admin.{lock_handler, ns_deinit_safe}

-- `lrcu_ns_deinit_safe` on a namespace that exists, with a free lock, fails the assertion of
-- `lrcu_write_barrier_ns`, since it has cleared the namespace's slot before.
pub ns_deinit_safe-fails :
    (w : World) (hp id p : ℕ) (h : Handler)
    → w.handler ≡ some hp
    → w.handlers hp ≡ some h
    → id < w.ns_max
    → h.ns id ≡ some p
    → IsFree h.ns_lock
    → ns_deinit_safe id w ≡ assert_failed
unfolding ns_deinit_safe lock_handler write_barrier_ns
ns_deinit_safe-fails w hp id p h has_handler has_h fits has_ns free =
    let here : (hp == hp) ≡ true = ground arith in
    let there : (id == id) ≡ true = ground arith in
    rw (has_handler, has_h, spin_lock-free h.ns_lock free, here)
      (rw (lt→ltb id w.ns_max fits, has_ns, here) (rw (lt→ltb id w.ns_max fits, there) refl))
