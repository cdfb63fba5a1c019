-- ===== src/Rcu/Writer.antt =====
-- src/lrcu.c: write sections, assignments, and requests to destroy.
pub mod Handover
use light_rcu.Prelude.{ℕ, ◌+◌, ◌%◌, Bool, ◌∷◌, if◌then◌else◌, update, Run, ok}
use light_rcu.Range.{u64_mod}
use light_rcu.Spinlock.{spin_lock, spin_unlock}
use light_rcu.Rcu.State.{
  LrcuPtr, Namespace, M, pure, lift, ◌>>=◌, ◌>>◌, get_handler, get_ns, load_ns, store_ns, checked,
}

-- `ns->version++`
unfoldable pub bump : Namespace → Namespace
bump ns = record ns { version = (ns.version + 1) % u64_mod }

-- `lrcu_write_barrier_ns`
unfoldable pub write_barrier_ns : ℕ → M (Unit {0})
unfolding bump
write_barrier_ns ns_id = do
  h ← get_handler
  p ← get_ns h ns_id
  ns ← load_ns p
  store_ns p (bump ns)

-- `lrcu_write_lock_ns`
unfoldable pub write_lock_ns : ℕ → M (Unit {0})
unfolding bump spin_lock
write_lock_ns ns_id = do
  h ← get_handler
  p ← get_ns h ns_id
  ns ← load_ns p
  l ← lift (spin_lock ns.write_lock)
  store_ns p (bump (record ns { write_lock = l }))

-- `lrcu_write_unlock_ns`
unfoldable pub write_unlock_ns : ℕ → M (Unit {0})
unfolding spin_unlock
write_unlock_ns ns_id = do
  h ← get_handler
  p ← get_ns h ns_id
  ns ← load_ns p
  store_ns p (record ns { write_lock = spin_unlock ns.write_lock })

-- `*pp = newptr`
abbrev pub write_cell : ℕ → ℕ → M (Unit {0})
write_cell pp newptr w = ok (tt, record w { cells = update w.cells pp newptr })

-- `__lrcu_assign_pointer_ns`
unfoldable pub assign_pointer_ns : ℕ → ℕ → ℕ → M (Unit {0})
unfolding write_barrier_ns
assign_pointer_ns ns_id pp newptr = do write_barrier_ns ns_id; write_cell pp newptr

-- `__lrcu_assign_ptr` and `lrcu_assign_ptr`: they return the structure that they write.
unfoldable pub assign_ptr_plain : LrcuPtr → ℕ → LrcuPtr
assign_ptr_plain p newptr = record p { ptr = newptr }

unfoldable pub assign_ptr : LrcuPtr → ℕ → M LrcuPtr
unfolding write_barrier_ns
assign_ptr p newptr = do write_barrier_ns p.ns_id; pure (record p { ptr = newptr })

-- `lrcu_ptr_init`
unfoldable pub ptr_init : LrcuPtr → ℕ → ℕ → LrcuPtr
ptr_init p ns_id deinit = record p { ns_id = ns_id; deinit = deinit; ptr = 0 }

-- The request that `lrcu_call_ns` builds, at the head of the list.
abbrev pub with_request : ℕ → ℕ → Namespace → Namespace
with_request p destr ns = record ns {
  free_list = record { ptr = p; deinit = destr; version = ns.version; ns_id = 0 } ∷ ns.free_list;
}

-- `lrcu_list_add` of it, which checks the list. The C code drops the request if `malloc` returns
-- `NULL`, then `got` is false, and nothing is checked.
unfoldable pub add_request : Bool → ℕ → ℕ → Namespace → Run Namespace
add_request got p destr ns =
    if got then checked (with_request p destr ns).free_list (with_request p destr ns) else ok ns

-- `lrcu_call_ns`
unfoldable pub call_ns : Bool → ℕ → ℕ → ℕ → M (Unit {0})
unfolding add_request spin_lock spin_unlock
call_ns got ns_id p destr = do
  h ← get_handler
  a ← get_ns h ns_id
  ns ← load_ns a
  l ← lift (spin_lock ns.list_lock)
  ns' ← lift (add_request got p destr (record ns { list_lock = l }))
  store_ns a (record ns' { list_lock = spin_unlock l })

-- What `lrcu_call_head_ns` writes into the head, and `lrcu_list_insert` of it, which checks the list.
unfoldable pub add_head : ℕ → ℕ → ℕ → Namespace → Run Namespace
add_head ns_id address destr ns =
    let free_hlist =
      record { address = address; func = destr; version = ns.version; ns_id = ns_id }
      ∷ ns.free_hlist in
    checked free_hlist (record ns { free_hlist = free_hlist })

-- `lrcu_call_head_ns`
unfoldable pub call_head_ns : ℕ → ℕ → ℕ → M (Unit {0})
unfolding add_head spin_lock spin_unlock
call_head_ns ns_id address destr = do
  h ← get_handler
  a ← get_ns h ns_id
  ns ← load_ns a
  l ← lift (spin_lock ns.list_hlock)
  ns' ← lift (add_head ns_id address destr (record ns { list_hlock = l }))
  store_ns a (record ns' { list_hlock = spin_unlock l })
