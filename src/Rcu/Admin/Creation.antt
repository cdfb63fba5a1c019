-- ===== src/Rcu/Admin/Creation.antt =====
-- The creation of a namespace: `lrcu_ns_init`.
use light_rcu.Prelude.{ℕ, Bool, ◌<◌, ◌≡◌, refl, true, some, none, ◌==◌, lt→ltb, update, ok, arith}
use light_rcu.Spinlock.{spin_unlock}
use light_rcu.Spinlock.Word.{IsFree, taken, spin_lock-free, spin_unlock-IsFree}
use light_rcu.Rcu.State.{Handler, World}
use light_rcu.Rcu.Writer.Handover.{CanWrite}
use light_rcu.Rcu.Admin.{lock_handler, unlock_handler, make_ns, new_ns, ns_init}

-- The handler exists with the worker's thread, its lock is free, and it has no such namespace.
pub record CanMake (w : World) (id : ℕ) : Type 0 where
  pub hp : ℕ
  pub h : Handler
  pub worker : ℕ
  pub handler_eq : w.handler ≡ some hp
  pub handlers_eq : w.handlers hp ≡ some h
  pub id_fits : id < w.ns_max
  pub unused : h.ns id ≡ none
  pub not_pending : h.worker_ns id ≡ none
  pub worker_eq : h.worker_ti ≡ some worker
  pub lock_free : IsFree h.ns_lock

-- The namespace is there, with the worker as its only thread, and a writer can use it.
pub record Made (w : World) (id : ℕ) (s : CanMake w id) (w' : World) : Type 0 where
  pub can_write : CanWrite w' id
  pub fresh : can_write.ns ≡ new_ns id s.worker
  pub worker_sees : can_write.h.worker_ns id ≡ some can_write.p
  pub lock_free' : IsFree can_write.h.ns_lock

module _ (w : World) (id : ℕ) (s : CanMake w id) (p : ℕ) where
  abbrev handler_after : Handler
  handler_after = record s.h {
    ns_lock = spin_unlock (taken s.h.ns_lock);
    ns = update s.h.ns id (some p);
    worker_ns = update s.h.worker_ns id (some p);
  }

  abbrev handler_during : Handler
  handler_during = record s.h {
    ns_lock = taken s.h.ns_lock;
    ns = update s.h.ns id (some p);
    worker_ns = update s.h.worker_ns id (some p);
  }

  abbrev world_after : World
  world_after = record w {
    handlers =
        update
          (update (update w.handlers s.hp (some (record s.h { ns_lock = taken s.h.ns_lock }))) s.hp
            (some handler_during))
          s.hp (some handler_after);
    namespaces = update w.namespaces p (some (new_ns id s.worker));
  }

  -- Where the handler exists with the worker's thread and a free lock, and has no namespace of this
  -- number, and memory is got, `lrcu_ns_init` ends normally and returns the new namespace. Writers
  -- can use it, the worker sees it and is its only thread, and the handler's lock is free again.
  pub ns_init-Made : (w' : World) × (ns_init id (some p) true w ≡ ok (some p, w')) × Made w id s w'
  unfolding ns_init lock_handler unlock_handler make_ns new_ns
  ns_init-Made =
      let same : (s.hp == s.hp) ≡ true = ground arith in
      let here : (id == id) ≡ true = ground arith in
      let there : (p == p) ≡ true = ground arith in
      (
        world_after,
        rw (s.handler_eq, s.handlers_eq, spin_lock-free s.h.ns_lock s.lock_free, same)
            (rw (lt→ltb id w.ns_max s.id_fits, s.unused, s.worker_eq)
              (rw (lt→ltb id w.ns_max s.id_fits, s.not_pending, same) (rw same refl))),
        record {
          can_write = record {
            hp = s.hp;
            h = handler_after;
            p = p;
            ns = new_ns id s.worker;
            handler_eq = s.handler_eq;
            handlers_eq = rw same refl;
            id_fits = s.id_fits;
            ns_eq = rw here refl;
            namespaces_eq = rw there refl;
            version_fits = omega arith;
            list_free = refl;
          };
          fresh = refl;
          worker_sees = rw here refl;
          lock_free' = spin_unlock-IsFree s.h.ns_lock s.lock_free;
        },
      )

  -- The store in which the handler's lock was taken and released.
  abbrev pub world_unlocked : World
  world_unlocked = record w {
    handlers =
        update (update w.handlers s.hp (some (record s.h { ns_lock = taken s.h.ns_lock }))) s.hp
          (some (record s.h { ns_lock = spin_unlock (taken s.h.ns_lock) }));
  }

  pub ns_init-none :
      (got_element : Bool) → ns_init id none got_element w ≡ ok (none, world_unlocked)
  unfolding ns_init lock_handler unlock_handler make_ns
  ns_init-none got_element =
      let same : (s.hp == s.hp) ≡ true = ground arith in
      rw (s.handler_eq, s.handlers_eq, spin_lock-free s.h.ns_lock s.lock_free, same)
        (rw (lt→ltb id w.ns_max s.id_fits, s.unused, s.worker_eq)
          (rw (lt→ltb id w.ns_max s.id_fits, s.not_pending, same) refl))
