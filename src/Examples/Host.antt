-- ===== src/Examples/Host.antt =====
-- examples/linux-module/linux-module.c, examples/simple-api-1/simple-api-1.c: the functions that create
-- and join the threads. What the platform answers is an argument: whether memory is got, and whether the
-- thread of a given number is created; the numbers of threads are not negative. What the threads do before
-- they are joined is a command.
pub mod Failures
use light_rcu.Prelude.{
  ℕ, zero, suc, ◌+◌, Bool, true, false, not, ◌&&◌, Option, List, [], ◌∷◌, if◌then◌else◌, Run, ok,
  assert_failed, undefined, out_of_fuel,
}
use light_rcu.Prelude.Commands.{Command, pure, ◌>>=◌, ◌>>◌}
use light_rcu.Rcu.State.{M}
use light_rcu.Rcu.Admin.{thread_deinit}
use light_rcu.Rcu.Life.{init, deinit, thread_init_default}
use light_rcu.Examples.{Client, library}

pub data Role : Type 0 where
  timer_role reader_role writer_role : Role

-- `running` are the threads that were created and not joined, the last one first; `has_shptr` and
-- `has_tids` tell that the shared structure and the two arrays are allocated.
pub record Host : Type 0 where
  pub client : Client
  pub running : List Role
  pub has_shptr : Bool
  pub has_tids : Bool

module _ {A : Type 0} where
  abbrev with_client : Host → Run (A × Client) → Run (A × Host)
  with_client h (ok (a, c)) = ok (a, record h { client = c })
  with_client h assert_failed = assert_failed
  with_client h undefined = undefined
  with_client h out_of_fuel = out_of_fuel

  abbrev pub on_client : Command Client A → Command Host A
  on_client m h = with_client h (m h.client)

abbrev pub add_running : Role → Command Host (Unit {0})
add_running role h = ok (tt, record h { running = role ∷ h.running })

abbrev pub none_running : Command Host (Unit {0})
none_running h = ok (tt, record h { running = [] })

abbrev pub set_memory : Bool → Bool → Command Host (Unit {0})
set_memory shptr tids h = ok (tt, record h { has_shptr = shptr; has_tids = tids })

-- What ends a function: `EXIT_SUCCESS`, `EXIT_FAILURE`, or a call of `exit`.
pub data Exit : Type 0 where
  success failure exited : Exit

module _ (created : ℕ → Bool) where
  -- `LRCU_THREAD_CREATE` or `pthread_create` of the thread `k`: whether it succeeds.
  abbrev pub create : Role → ℕ → Command Host Bool
  create role k = if created k then (do add_running role; pure true) else pure false

  -- A loop of creations, from the thread `k` on, up to the first that fails.
  unfoldable pub create_all : Role → ℕ → ℕ → Command Host Bool
  create_all role zero k = pure true
  create_all role (suc n) k = do
    got ← create role k
    if got then create_all role n (k + 1) else pure false

  module _ (threads_run : Command Client (Unit {0})) (me : ℕ) (got_info : Option ℕ)
      (got_element : Bool) where
    -- The label `out` of `run_test`.
    abbrev pub run_out : Exit → Command Host Exit
    run_out err = do set_memory false false; pure err

    -- `run_test` behind the creations.
    unfoldable pub run_joins : Command Host Exit
    run_joins = do
      on_client threads_run
      none_running
      on_client (library (thread_deinit me))
      run_out success

    -- `run_test`; the thread 0 is `timer_thread`.
    unfoldable pub run_test : Bool → Bool → ℕ → ℕ → Command Host Exit
    unfolding run_joins
    run_test got_shptr got_tids readers writers = do
      set_memory got_shptr got_tids
      if not (got_shptr && got_tids) then run_out failure else do
        t ← on_client (library (thread_init_default me got_info got_element))
        timed ← create timer_role 0
        if not timed then run_out failure else do
          read ← create_all reader_role readers 1
          if not read then run_out failure else do
            written ← create_all writer_role writers (readers + 1)
            if not written then run_out failure else run_joins

    -- `main` of simple-api-1.c, where `shptr` is a variable and there is no timer.
    unfoldable pub main : M (Option ℕ) → M (Unit {0}) → Bool → ℕ → ℕ → Command Host Exit
    main init_library join got_tids readers writers = do
      set_memory true got_tids
      if not got_tids then (do set_memory true false; pure failure) else do
        hp ← on_client (library init_library)
        t ← on_client (library (thread_init_default me got_info got_element))
        read ← create_all reader_role readers 0
        if not read then pure exited else do
          written ← create_all writer_role writers readers
          if not written then pure exited else do
            on_client threads_run
            none_running
            on_client (library (thread_deinit me))
            on_client (library (deinit join))
            set_memory true false
            pure success
