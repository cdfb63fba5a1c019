-- ===== src/Rcu/Admin.antt =====
-- src/lrcu.c: namespaces and threads are made and removed. An allocation is an argument: the address
-- that `calloc` returned, or `none`; and whether `malloc` gave an element for a list.
pub mod Removal
pub mod Joining
pub mod Creation
use light_rcu.Prelude.{
  ℕ, zero, suc, ◌+◌, Bool, true, false, ◌||◌, Option, none, some, List, [], ◌∷◌, ltb, ◌==◌,
  if◌then◌else◌, update, Run, ok, assert_failed, undefined,
}
use light_rcu.Spinlock.{unlocked, spin_lock, spin_unlock}
use light_rcu.Rcu.State.{
  LocalNs, ThreadInfo, Namespace, Handler, World, M, pure, lift, ◌>>=◌, ◌>>◌, assert_some, deref,
  read, get_handler, get_ns, load_ns, store_ns, get_ti, load_ti, store_ti, check_list, checked,
}
use light_rcu.Rcu.Writer.{write_barrier_ns}

-- `LRCU_NS_SYNC_SLEEP_US`
abbrev pub sync_sleep : ℕ
sync_sleep = 100

abbrev pub store_handler : ℕ → Handler → M (Unit {0})
store_handler hp h w = ok (tt, record w { handlers = update w.handlers hp (some h) })

-- `LRCU_GET_HANDLER()` that is asserted, as a pointer.
abbrev pub get_handler_pointer : M ℕ
get_handler_pointer = do hp ← read (λ w. w.handler); assert_some hp

abbrev pub load_handler : ℕ → M Handler
load_handler hp = do h ← read (λ w. w.handlers hp); deref h

-- `lrcu_spin_lock(&h->ns_lock)` and `lrcu_spin_unlock(&h->ns_lock)`
unfoldable pub lock_handler : ℕ → M (Unit {0})
lock_handler hp = do
  h ← load_handler hp
  l ← lift (spin_lock h.ns_lock)
  store_handler hp (record h { ns_lock = l })

unfoldable pub unlock_handler : ℕ → M (Unit {0})
unlock_handler hp = do
  h ← load_handler hp
  store_handler hp (record h { ns_lock = spin_unlock h.ns_lock })

-- `LRCU_ASSERT(!x)` and `LRCU_ASSERT(x)` of a pointer, without its value.
abbrev assert_null : Option ℕ → M (Unit {0})
assert_null none = pure tt
assert_null (some x) = lift assert_failed

-- A slot of `ns` or `worker_ns`, none past the end of the array.
abbrev pub slot : (ℕ → Option ℕ) → ℕ → M (Option ℕ)
slot ns id = do n ← read (λ w. w.ns_max); if ltb id n then pure (ns id) else lift undefined

-- The namespace that `lrcu_ns_init` makes, zero but for four members.
unfoldable pub new_ns : ℕ → ℕ → Namespace
new_ns id worker_ti = record {
  write_lock = unlocked;
  processed_version = 0;
  sync_timeout = sync_sleep;
  threads_lock = unlocked;
  threads = worker_ti ∷ [];
  hung_threads = [];
  id = id;
  list_hlock = unlocked;
  free_hlist = [];
  worker_hlist = [];
  list_lock = unlocked;
  free_list = [];
  worker_list = [];
  version = 1;
}

-- The rounds of `lrcu_list_find_ptr`
unfoldable pub has : ℕ → List ℕ → Bool
has p [] = false
has p (x ∷ xs) = (x == p) || has p xs

-- The rounds of `lrcu_list_find_ptr_unlink`: the list without the first element that is the pointer.
unfoldable pub unlink : ℕ → List ℕ → List ℕ
unlink p [] = []
unlink p (x ∷ xs) = let rest = unlink p xs in if x == p then xs else x ∷ rest

-- `lrcu_list_find_ptr_unlink`, with the check of the list at its start; the one at its end is of a list
-- that is not longer.
unfoldable pub find_ptr_unlink : ℕ → List ℕ → Run (Bool × List ℕ)
unfolding has unlink
find_ptr_unlink p xs = checked xs (has p xs, unlink p xs)

-- The part of `lrcu_ns_init` for a namespace that still waits for its removal.
unfoldable pub revive_ns : ℕ → ℕ → ℕ → ℕ → M (Option ℕ)
revive_ns hp id p worker_ti = do
  ns ← load_ns p
  lift (check_list ns.threads)
  if has worker_ti ns.threads then pure tt else lift assert_failed
  h ← load_handler hp
  store_handler hp (record h { ns = update h.ns id (some p) })
  unlock_handler hp
  pure (some p)

-- The part for a new one.
unfoldable pub make_ns : ℕ → ℕ → ℕ → Option ℕ → Bool → M (Option ℕ)
make_ns hp id worker_ti none got_element = do unlock_handler hp; pure none
make_ns hp id worker_ti (some p) false = do unlock_handler hp; pure none
make_ns hp id worker_ti (some p) true = do
  store_ns p (new_ns id worker_ti)
  h ← load_handler hp
  store_handler hp
      (record h { ns = update h.ns id (some p); worker_ns = update h.worker_ns id (some p) })
  unlock_handler hp
  pure (some p)

abbrev pub or_make : Option ℕ → (ℕ → M (Option ℕ)) → M (Option ℕ) → M (Option ℕ)
or_make none f m = m
or_make (some p) f m = f p

-- `lrcu_ns_init`
unfoldable pub ns_init : ℕ → Option ℕ → Bool → M (Option ℕ)
ns_init id got got_element = do
  hp ← get_handler_pointer
  lock_handler hp
  h ← load_handler hp
  old ← slot h.ns id
  assert_null old
  worker_ti ← assert_some h.worker_ti
  pending ← slot h.worker_ns id
  or_make pending (λ p. revive_ns hp id p worker_ti) (make_ns hp id worker_ti got got_element)

-- `lrcu_ns_deinit_safe`
unfoldable pub ns_deinit_safe : ℕ → M (Unit {0})
ns_deinit_safe id = do
  hp ← get_handler_pointer
  lock_handler hp
  h ← load_handler hp
  ns ← get_ns h id
  store_handler hp (record h { ns = update h.ns id none })
  write_barrier_ns id
  unlock_handler hp

-- The information that `__lrcu_thread_init` makes.
unfoldable pub new_info : ℕ → ThreadInfo
new_info hp = record {
  h = hp;
  timeval = λ i. 0;
  lns = λ i. record { version = 0; counter = 0 };
  hung_lns = λ i. record { version = 0; counter = 0 };
}

-- `__lrcu_thread_init` in the thread `me`
unfoldable pub thread_init : ℕ → Option ℕ → M (Option ℕ)
thread_init me none = do hp ← get_handler_pointer; pure none
thread_init me (some t) = do
  hp ← get_handler_pointer
  store_ti t (new_info hp)
  set_tls me (some t)
  pure (some t)
  where
    set_tls : ℕ → Option ℕ → M (Unit {0})
    set_tls me t w = ok (tt, record w { tls = update w.tls me t })

-- `lrcu_list_add` of a thread, which checks the list if memory is got.
abbrev pub add_thread : Bool → ℕ → List ℕ → Run (List ℕ)
add_thread got t threads = if got then checked (t ∷ threads) (t ∷ threads) else ok threads

-- `lrcu_thread_set_ns` in the thread `me`
unfoldable pub thread_set_ns : ℕ → ℕ → Bool → M Bool
thread_set_ns me id got_element = do
  hp ← get_handler_pointer
  t ← get_ti me
  lock_handler hp
  h ← load_handler hp
  p ← get_ns h id
  unlock_handler hp
  ns ← load_ns p
  l ← lift (spin_lock ns.threads_lock)
  threads ← lift (add_thread got_element t ns.threads)
  store_ns p (record ns { threads = threads; threads_lock = spin_unlock l })
  pure got_element

-- `thread_remove_from_ns` for the information `t`
unfoldable pub thread_remove_from_ns : ℕ → ℕ → M Bool
thread_remove_from_ns t id = do
  ti ← load_ti t
  h ← load_handler ti.h
  q ← slot h.worker_ns id
  p ← assert_some q
  ns ← load_ns p
  l ← lift (spin_lock ns.threads_lock)
  (found, threads) ← lift (find_ptr_unlink t ns.threads)
  store_ns p (record ns { threads = threads; threads_lock = spin_unlock l })
  pure found

-- `lrcu_thread_del_ns` in the thread `me`
unfoldable pub thread_del_ns : ℕ → ℕ → M Bool
thread_del_ns me id = do
  t ← get_ti me
  ti ← load_ti t
  lock_handler ti.h
  found ← thread_remove_from_ns t id
  unlock_handler ti.h
  pure found

-- The loop of `thread_destructor_callback` over `n` namespaces from `i` on.
unfoldable pub remove_from_all : ℕ → ℕ → ℕ → Bool → M (Unit {0})
remove_from_all t zero i found = pure tt
remove_from_all t (suc n) i true = remove_from_all t n (i + 1) true
remove_from_all t (suc n) i false = do
  found ← thread_remove_from_ns t i
  remove_from_all t n (i + 1) found

-- `thread_destructor_callback`
unfoldable pub thread_destructor : ℕ → M (Unit {0})
thread_destructor t = do
  ti ← load_ti t
  lock_handler ti.h
  n ← read (λ w. w.ns_max)
  remove_from_all t n 0 false
  unlock_handler ti.h
  free_ti t
  where
    free_ti : ℕ → M (Unit {0})
    free_ti t w = ok (tt, record w { infos = update w.infos t none })

-- `lrcu_thread_deinit` in the thread `me`
unfoldable pub thread_deinit : ℕ → M (Unit {0})
thread_deinit me = do t ← get_ti me; thread_destructor t; del_tls me
  where
    del_tls : ℕ → M (Unit {0})
    del_tls me w = ok (tt, record w { tls = update w.tls me none })
