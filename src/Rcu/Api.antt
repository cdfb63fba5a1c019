-- ===== src/Rcu/Api.antt =====
-- include/lrcu/lrcu.h: the macros that programs call, which pass on the namespace `LRCU_NS_DEFAULT`.
-- `me` is the thread, and `got` says whether memory is got.
use light_rcu.Prelude.{ℕ, Bool}
use light_rcu.Rcu.State.{LrcuPtr, M}
use light_rcu.Rcu.Reader.{read_lock_ns, read_unlock_ns}
use light_rcu.Rcu.Writer.{
  write_barrier_ns, write_lock_ns, write_unlock_ns, assign_pointer_ns, call_ns, call_head_ns,
}
use light_rcu.Rcu.Life.{ns_default}

-- `lrcu_write_barrier`
unfoldable pub write_barrier : M (Unit {0})
write_barrier = write_barrier_ns ns_default

-- `lrcu_write_lock`
unfoldable pub write_lock : M (Unit {0})
write_lock = write_lock_ns ns_default

-- `lrcu_write_unlock`
unfoldable pub write_unlock : M (Unit {0})
write_unlock = write_unlock_ns ns_default

-- `lrcu_read_lock`
unfoldable pub read_lock : ℕ → M (Unit {0})
read_lock me = read_lock_ns me ns_default

-- `lrcu_read_unlock`
unfoldable pub read_unlock : ℕ → M (Unit {0})
read_unlock me = read_unlock_ns me ns_default

-- `lrcu_assign_pointer`
unfoldable pub assign_pointer : ℕ → ℕ → M (Unit {0})
assign_pointer p v = assign_pointer_ns ns_default p v

-- `lrcu_call`
unfoldable pub call : Bool → ℕ → ℕ → M (Unit {0})
call got x y = call_ns got ns_default x y

-- `lrcu_call_ptr`
unfoldable pub call_ptr : Bool → LrcuPtr → M (Unit {0})
call_ptr got x = call_ns got x.ns_id x.ptr x.deinit

-- `lrcu_call_head`
unfoldable pub call_head : ℕ → ℕ → M (Unit {0})
call_head ptr func = call_head_ns ns_default ptr func
