-- ===== src/Rcu/Life.antt =====
-- src/lrcu.c: the start and the end of the library, `__lrcu_init`, `lrcu_init` and `lrcu_deinit`, and
-- of its worker thread, `lrcu_worker`, with the states that they share. What the platform answers is
-- an argument: the address of an allocation, whether the thread was created, and whether it should
-- stop. What other threads do while a round of a wait sleeps, or during a join, is a command.
pub mod Start
pub mod Stop
use light_rcu.Prelude.{
  ℕ, zero, suc, ◌+◌, Bool, true, false, ◌||◌, Option, none, some, if◌then◌else◌, update, ok,
  out_of_fuel,
}
use light_rcu.Qsort.{Qsort}
use light_rcu.Range.{Range, Slots}
use light_rcu.Spinlock.{unlocked}
use light_rcu.Rcu.State.{
  Handler, WorkerState, ready, run, running, stop, done, World, M, pure, lift, ◌>>=◌, ◌>>◌,
  assert_some, read,
}
use light_rcu.Rcu.Cycle.{pass_all}
use light_rcu.Rcu.Admin.{
  store_handler, load_handler, get_handler_pointer, ns_init, thread_init, thread_set_ns,
  thread_deinit,
}

-- `LRCU_WORKER_SLEEP_US`
abbrev pub worker_sleep : ℕ
worker_sleep = 50

-- `LRCU_NS_DEFAULT`
abbrev pub ns_default : ℕ
ns_default = 0

abbrev pub is_run : WorkerState → Bool
is_run run = true
is_run ready = false
is_run running = false
is_run stop = false
is_run done = false

abbrev pub is_running : WorkerState → Bool
is_running running = true
is_running ready = false
is_running run = false
is_running stop = false
is_running done = false

abbrev pub is_stop : WorkerState → Bool
is_stop stop = true
is_stop ready = false
is_stop run = false
is_stop running = false
is_stop done = false

-- `LRCU_SET_HANDLER` and `LRCU_DEL_HANDLER`, and `LRCU_FREE` of a handler.
abbrev pub set_handler : Option ℕ → M (Unit {0})
set_handler hp w = ok (tt, record w { handler = hp })

abbrev pub free_handler : ℕ → M (Unit {0})
free_handler hp w = ok (tt, record w { handlers = update w.handlers hp none })

abbrev pub set_state : ℕ → WorkerState → M (Unit {0})
set_state hp st = do h ← load_handler hp; store_handler hp (record h { worker_state = st })

-- The handler that `__lrcu_init` makes, zero but for two members.
abbrev pub new_handler : Handler
new_handler = record {
  ns_lock = unlocked;
  ns = λ i. none;
  worker_ns = λ i. none;
  worker_ti = none;
  worker_state = run;
  worker_timeout = worker_sleep;
}

-- `lrcu_worker` up to its loop, in the thread `worker`.
unfoldable pub worker_start : ℕ → ℕ → Option ℕ → M (Unit {0})
worker_start worker hp got = do
  t ← thread_init worker got
  h ← load_handler hp
  store_handler hp (record h { worker_ti = t })
  t' ← assert_some t
  set_state hp running

-- `lrcu_worker` behind its loop.
unfoldable pub worker_end : ℕ → ℕ → M (Unit {0})
worker_end worker hp = do thread_deinit worker; set_state hp done

module _ (q : Qsort Range) (now : ℕ → ℕ → ℕ) (should_stop : ℕ → Bool) (sleep : ℕ → M (Unit {0}))
    (worker hp : ℕ) where
  -- The loop of `lrcu_worker`.
  unfoldable pub worker_rounds : ℕ → ℕ → Slots → M (Unit {0})
  worker_rounds zero k ranges = lift out_of_fuel
  worker_rounds (suc fuel) k ranges = do
    h ← load_handler hp
    if is_stop h.worker_state || should_stop k then pure tt else do
      n ← read (λ w. w.ns_max)
      ranges' ← pass_all q (now k) hp n 0 ranges
      sleep k
      worker_rounds fuel (k + 1) ranges'

  -- `lrcu_worker`
  unfoldable pub worker_thread : ℕ → Option ℕ → Slots → M (Unit {0})
  worker_thread fuel got ranges = do
    worker_start worker hp got
    worker_rounds fuel 0 ranges
    worker_end worker hp

-- The label `out` of `__lrcu_init`.
abbrev pub init_out : ℕ → M (Option ℕ)
init_out hp = do set_handler none; free_handler hp; pure none

-- Its loop that waits for the worker's start, and what follows.
unfoldable pub init_wait : (ℕ → M (Unit {0})) → ℕ → ℕ → ℕ → M (Option ℕ)
init_wait sleep hp zero k = lift out_of_fuel
init_wait sleep hp (suc fuel) k = do
  h ← load_handler hp
  if is_run h.worker_state
      then (do sleep k; init_wait sleep hp fuel (k + 1))
      else (if is_running h.worker_state then pure (some hp) else init_out hp)

-- `__lrcu_init`
unfoldable pub init_handler : (ℕ → M (Unit {0})) → ℕ → Option ℕ → Bool → M (Option ℕ)
init_handler sleep fuel none created = pure none
init_handler sleep fuel (some hp) created = do
  store_handler hp new_handler
  set_handler (some hp)
  if created then init_wait sleep hp fuel 0 else init_out hp

-- `lrcu_deinit`
unfoldable pub deinit : M (Unit {0}) → M (Unit {0})
deinit join = do hp ← get_handler_pointer; set_state hp stop; join; set_handler none

-- The end of `lrcu_init`.
abbrev pub init_end : ℕ → M (Unit {0}) → Option ℕ → M (Option ℕ)
init_end hp join (some p) = pure (some hp)
init_end hp join none = do deinit join; pure none

-- `lrcu_init`
unfoldable pub init :
    (ℕ → M (Unit {0})) → M (Unit {0}) → ℕ → Option ℕ → Bool → Option ℕ → Bool → M (Option ℕ)
init sleep join fuel got created got_ns got_element = do
  r ← init_handler sleep fuel got created
  hp ← assert_some r
  p ← ns_init ns_default got_ns got_element
  init_end hp join p

-- `lrcu_thread_init` in the thread `me`
unfoldable pub thread_init_default : ℕ → Option ℕ → Bool → M (Option ℕ)
thread_init_default me got got_element = do
  r ← thread_init me got
  t ← assert_some r
  joined ← thread_set_ns me ns_default got_element
  if joined then pure (some t) else (do thread_deinit me; pure none)
