-- ===== src/Rcu/State.antt =====
-- The structures of src/lrcu_internal.h and include/lrcu/lrcu.h, the store that holds them, and
-- commands over it. A pointer is a number, and a freed or unallocated object is `none`.
use light_rcu.Prelude.{
  ℕ, Option, some, List, length, ltb, Run, assert_failed, if◌then◌else◌, update, ok, undefined,
}
use light_rcu.LinkedList.{check_depth}
use light_rcu.Spinlock.{Spinlock}
use light_rcu.Prelude.Commands.{Command}
pub use light_rcu.Prelude.Commands.{pure, lift, ◌>>=◌, ◌>>◌, assert_some, deref, read}

-- `lrcu_list_check_loop` of include/lrcu/list.h, for a list that ends: `LRCU_LIST_DEBUG` is defined.
-- `checked` goes on with a value if the check passes.
abbrev pub checked {ℓ κ} : {A : Type ℓ} {B : Type κ} → List A → B → Run B
checked xs b = if ltb (length xs) check_depth then ok b else assert_failed

abbrev pub check_list {ℓ} : {A : Type ℓ} → List A → Run (Unit {0})
check_list xs = checked xs tt

-- `lrcu_local_namespace_t`. A negative `counter` fails an assertion where it would arise.
pub record LocalNs : Type 0 where
  pub version : ℕ
  pub counter : ℕ

-- `struct lrcu_thread_info`: the arrays are indexed by namespace. A `struct timeval` is its number
-- of microseconds, so that `timerisset` is "not 0" and `timeradd` is a sum.
pub record ThreadInfo : Type 0 where
  pub h : ℕ
  pub timeval : ℕ → ℕ
  pub lns : ℕ → LocalNs
  pub hung_lns : ℕ → LocalNs

-- `struct lrcu_ptr`; functions are numbers.
pub record LrcuPtr : Type 0 where
  pub ptr : ℕ
  pub deinit : ℕ
  pub version : ℕ
  pub ns_id : ℕ

-- `struct lrcu_ptr_head`, with the address at which it stands.
pub record PtrHead : Type 0 where
  pub address : ℕ
  pub func : ℕ
  pub version : ℕ
  pub ns_id : ℕ

-- `struct lrcu_namespace`
pub record Namespace : Type 0 where
  pub write_lock : Spinlock
  pub processed_version : ℕ
  pub sync_timeout : ℕ
  pub threads_lock : Spinlock
  pub threads : List ℕ
  pub hung_threads : List ℕ
  pub id : ℕ
  pub list_hlock : Spinlock
  pub free_hlist : List PtrHead
  pub worker_hlist : List PtrHead
  pub list_lock : Spinlock
  pub free_list : List LrcuPtr
  pub worker_list : List LrcuPtr
  pub version : ℕ

-- `LRCU_WORKER_READY` to `LRCU_WORKER_DONE`
pub data WorkerState : Type 0 where
  ready run running stop done : WorkerState

-- `struct lrcu_handler`
pub record Handler : Type 0 where
  pub ns_lock : Spinlock
  pub ns : ℕ → Option ℕ
  pub worker_ns : ℕ → Option ℕ
  pub worker_ti : Option ℕ
  pub worker_state : WorkerState
  pub worker_timeout : ℕ

-- A destructor call: the function, its argument, and the version of the request.
pub record Call : Type 0 where
  pub func : ℕ
  pub arg : ℕ
  pub version : ℕ

-- `ns_max` is `LRCU_NS_MAX`, `handler` is `__lrcu_handler`, `tls` holds `__lrcu_thread_info` of each
-- thread, `cells` the pointers that `lrcu_assign_pointer` writes and `lrcu_dereference` reads, and
-- `called` the destructors called so far, the last one first.
pub record World : Type 0 where
  pub ns_max : ℕ
  pub handler : Option ℕ
  pub handlers : ℕ → Option Handler
  pub namespaces : ℕ → Option Namespace
  pub infos : ℕ → Option ThreadInfo
  pub tls : ℕ → Option ℕ
  pub cells : ℕ → ℕ
  pub called : List Call

abbrev pub M : Type 0 → Type 0
M A = Command World A

-- `h = LRCU_GET_HANDLER(); LRCU_ASSERT(h);`
abbrev pub get_handler : M Handler
get_handler = do
  hp ← read (λ w. w.handler)
  hp ← assert_some hp
  h ← read (λ w. w.handlers hp)
  deref h

-- `ns = h->ns[id]; LRCU_ASSERT(ns);`. There is no check of `id`.
abbrev pub get_ns : Handler → ℕ → M ℕ
get_ns h id = do
  n ← read (λ w. w.ns_max)
  if ltb id n then assert_some (h.ns id) else lift undefined

abbrev pub load_ns : ℕ → M Namespace
load_ns p = do ns ← read (λ w. w.namespaces p); deref ns

abbrev pub store_ns : ℕ → Namespace → M (Unit {0})
store_ns p ns w = ok (tt, record w { namespaces = update w.namespaces p (some ns) })

-- `ti = LRCU_GET_TI(); LRCU_ASSERT(ti);` in the thread `me`
abbrev pub get_ti : ℕ → M ℕ
get_ti me = do ti ← read (λ w. w.tls me); assert_some ti

abbrev pub load_ti : ℕ → M ThreadInfo
load_ti p = do ti ← read (λ w. w.infos p); deref ti

abbrev pub store_ti : ℕ → ThreadInfo → M (Unit {0})
store_ti p ti w = ok (tt, record w { infos = update w.infos p (some ti) })
