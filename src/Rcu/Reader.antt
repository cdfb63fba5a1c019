-- ===== src/Rcu/Reader.antt =====
-- src/lrcu.c: read sections and reads of protected pointers.
pub mod Nesting
use light_rcu.Prelude.{ℕ, ◌+◌, ◌-◌, ◌^◌, ltb, ◌==◌, if◌then◌else◌, update, assert_failed, undefined}
use light_rcu.Rcu.State.{
  LocalNs, ThreadInfo, LrcuPtr, M, pure, lift, ◌>>=◌, ◌>>◌, get_handler, get_ns, load_ns, get_ti,
  load_ti, store_ti, read,
}

-- The first value past `i32`
abbrev pub i32_end : ℕ
i32_end = 2 ^ 31

-- `lns->counter++`
unfoldable pub nest : LocalNs → LocalNs
nest lns = record lns { counter = lns.counter + 1 }

-- The same with `lns->version = ns->version`, on the first entrance.
unfoldable pub enter : ℕ → LocalNs → LocalNs
unfolding nest
enter ns_version lns = record (nest lns) { version = ns_version }

-- `lns->counter--`
unfoldable pub leave : LocalNs → LocalNs
leave lns = record lns { counter = lns.counter - 1 }

abbrev pub set_lns : ThreadInfo → ℕ → LocalNs → ThreadInfo
set_lns ti id lns = record ti { lns = update ti.lns id lns }

-- The counter is an `i32`, whose overflow is undefined.
abbrev check_counter : LocalNs → M (Unit {0})
check_counter lns = if ltb (lns.counter + 1) i32_end then pure tt else lift undefined

-- `lrcu_read_lock_ns` in the thread `me`
unfoldable pub read_lock_ns : ℕ → ℕ → M (Unit {0})
unfolding nest enter
read_lock_ns me ns_id = do
  h ← get_handler
  p ← get_ns h ns_id
  t ← get_ti me
  ti ← load_ti t
  let lns = ti.lns ns_id
  check_counter lns
  if (nest lns).counter == 1
      then (do ns ← load_ns p; store_ti t (set_lns ti ns_id (enter ns.version lns)))
      else store_ti t (set_lns ti ns_id (nest lns))

-- `lrcu_read_unlock_ns`; below 0 the last assertion fails.
unfoldable pub read_unlock_ns : ℕ → ℕ → M (Unit {0})
unfolding leave
read_unlock_ns me ns_id = do
  h ← get_handler
  p ← get_ns h ns_id
  t ← get_ti me
  ti ← load_ti t
  let lns = ti.lns ns_id
  if lns.counter == 0 then lift assert_failed else store_ti t (set_lns ti ns_id (leave lns))

-- `__lrcu_dereference`
unfoldable pub dereference : ℕ → M ℕ
dereference pp = read (λ w. w.cells pp)

-- `lrcu_dereference_ptr`
unfoldable pub dereference_ptr : LrcuPtr → ℕ
dereference_ptr p = p.ptr
