-- ===== src/Rcu/Life/Start.antt =====
-- `lrcu_init`, with the worker that it waits for.
use light_rcu.Prelude.{ℕ, suc, ◌<◌, ◌≡◌, refl, true, some, ◌==◌, update, ok, arith}
use light_rcu.Rcu.State.{Handler, World, M, running}
use light_rcu.Rcu.Admin.{new_info, thread_init}
use light_rcu.Rcu.Admin.Creation.{CanMake, Made, ns_init-Made}
use light_rcu.Rcu.Life.{new_handler, worker_start, init_wait, init_handler, init, ns_default}

module _ (w : World) (hp worker t : ℕ) where
  -- The handler that waits for its worker, that has its thread, and that knows that it runs.
  abbrev handler_thread : Handler
  handler_thread = record new_handler { worker_ti = some t }

  abbrev pub handler_running : Handler
  handler_running = record new_handler { worker_ti = some t; worker_state = running }

  -- The store after `__lrcu_init`.
  abbrev pub started : World
  started = record w {
    handler = some hp;
    handlers =
        update (update (update w.handlers hp (some new_handler)) hp (some handler_thread)) hp
          (some handler_running);
    infos = update w.infos t (some (new_info hp));
    tls = update w.tls worker (some t);
  }

  pub init_handler_lem :
      (fuel : ℕ)
      → init_handler (λ k. worker_start worker hp (some t)) (suc (suc fuel)) (some hp) true w
        ≡ ok (some hp, started)
  unfolding init_handler init_wait worker_start thread_init
  init_handler_lem fuel =
      let same : (hp == hp) ≡ true = ground arith in rw same (rw same (rw same (rw same refl)))

  pub started-handler : started.handlers hp ≡ some handler_running
  started-handler = let same : (hp == hp) ≡ true = ground arith in rw same refl

  abbrev pub started-CanMake : 0 < w.ns_max → CanMake started ns_default
  started-CanMake fits = record {
    hp = hp;
    h = handler_running;
    worker = t;
    handler_eq = refl;
    handlers_eq = started-handler;
    id_fits = fits;
    unused = refl;
    not_pending = refl;
    worker_eq = refl;
    lock_free = refl;
  }

  -- Where memory is got, the worker's thread is created and starts while `lrcu_init` sleeps for the
  -- first time, `lrcu_init` ends normally and returns the handler. Writers can use the default
  -- namespace, the worker sees it and is its only thread.
  pub init-Made :
      (join : M (Unit {0})) (fuel p : ℕ) (fits : 0 < w.ns_max)
      → (w' : World) × (init
            (λ k. worker_start worker hp (some t))
            join
            (suc (suc fuel))
            (some hp)
            true
            (some p)
            true
            w
          ≡ ok (some hp, w'))
        × Made started ns_default (started-CanMake fits) w'
  unfolding init
  init-Made join fuel p fits =
      let (w', runs, made) = ns_init-Made started ns_default (started-CanMake fits) p in
      (w', rw (init_handler_lem fuel, runs) refl, made)
