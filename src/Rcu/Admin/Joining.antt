-- ===== src/Rcu/Admin/Joining.antt =====
-- A thread joins a namespace and leaves it again: `lrcu_thread_set_ns` and `lrcu_thread_del_ns`.
use light_rcu.Prelude.{
  ℕ, suc, length, ◌+◌, ◌<◌, ◌≡◌, refl, ap, ◌∙◌, true, some, ◌==◌, lt→ltb, update, ok, arith, List,
  ◌∷◌, Bool,
}
use light_rcu.LinkedList.{check_depth}
use light_rcu.Spinlock.{spin_unlock}
use light_rcu.Spinlock.Word.{IsFree, taken, spin_lock-free, spin_unlock-IsFree}
use light_rcu.Rcu.State.{Handler, Namespace, World, ◌>>=◌}
use light_rcu.Rcu.Reader.Nesting.{CanRead}
use light_rcu.Rcu.Admin.{
  lock_handler, unlock_handler, has, unlink, thread_set_ns, thread_remove_from_ns, thread_del_ns,
  find_ptr_unlink,
}

-- The thread may use the namespace, which the worker knows too; both locks are free.
pub record CanJoin (w : World) (me id : ℕ) : Type 0 where
  pub can_read : CanRead w me id
  pub worker_eq : can_read.h.worker_ns id ≡ some can_read.p
  pub back : can_read.info.h ≡ can_read.hp
  pub lock_free : IsFree can_read.h.ns_lock
  pub threads_free : IsFree can_read.ns.threads_lock

-- There is room for the thread in the list.
abbrev pub HasRoom : List ℕ → Type 0
HasRoom ts = length ts + 1 < check_depth

-- The thread is in the list, and out of it again.
abbrev pub relocked : Handler → Handler
relocked h = record h { ns_lock = spin_unlock (taken h.ns_lock) }

abbrev pub during : Handler → Handler
during h = record h { ns_lock = taken h.ns_lock }

abbrev joined_ns : ℕ → Namespace → Namespace
joined_ns t ns = record ns {
  threads = t ∷ ns.threads;
  threads_lock = spin_unlock (taken ns.threads_lock);
}

module _ (w : World) (me id : ℕ) (j : CanJoin w me id) where
  abbrev s : CanRead w me id
  s = j.can_read

  abbrev world_joined : World
  world_joined = record w {
    handlers = update (update w.handlers s.hp (some (during s.h))) s.hp (some (relocked s.h));
    namespaces = update w.namespaces s.p (some (joined_ns s.t s.ns));
  }

  set_runs : HasRoom s.ns.threads → thread_set_ns me id true w ≡ ok (true, world_joined)
  unfolding thread_set_ns lock_handler unlock_handler
  set_runs room =
      let short = lt→ltb (suc (length s.ns.threads)) check_depth (omega (arith, room)) in
      let same : (s.hp == s.hp) ≡ true = ground arith in
      rw (s.handler_eq, s.tls_eq, s.handlers_eq, spin_lock-free s.h.ns_lock j.lock_free, same)
        (rw (lt→ltb id w.ns_max s.id_fits, s.ns_eq, same)
          (rw (s.namespaces_eq, spin_lock-free s.ns.threads_lock j.threads_free) (rw short refl)))

  world_joined-CanJoin : CanJoin world_joined me id
  world_joined-CanJoin =
      let same : (s.hp == s.hp) ≡ true = ground arith in
      let there : (s.p == s.p) ≡ true = ground arith in
      record {
        can_read = record {
          hp = s.hp;
          h = relocked s.h;
          p = s.p;
          ns = joined_ns s.t s.ns;
          t = s.t;
          info = s.info;
          handler_eq = s.handler_eq;
          handlers_eq = rw same refl;
          id_fits = s.id_fits;
          ns_eq = s.ns_eq;
          namespaces_eq = rw there refl;
          tls_eq = s.tls_eq;
          infos_eq = s.infos_eq;
        };
        worker_eq = j.worker_eq;
        back = j.back;
        lock_free = spin_unlock-IsFree s.h.ns_lock j.lock_free;
        threads_free = spin_unlock-IsFree s.ns.threads_lock j.threads_free;
      }

  abbrev left_ns : Namespace
  left_ns = record s.ns {
    threads = unlink s.t s.ns.threads;
    threads_lock = spin_unlock (taken s.ns.threads_lock);
  }

  abbrev world_left : World
  world_left = record w {
    handlers = update (update w.handlers s.hp (some (during s.h))) s.hp (some (relocked s.h));
    namespaces = update w.namespaces s.p (some left_ns);
  }

  del_runs :
      length s.ns.threads < check_depth
      → thread_del_ns me id w ≡ ok (has s.t s.ns.threads, world_left)
  unfolding thread_del_ns thread_remove_from_ns find_ptr_unlink lock_handler unlock_handler
  del_runs room =
      let short = lt→ltb (length s.ns.threads) check_depth room in
      let same : (s.hp == s.hp) ≡ true = ground arith in
      rw (s.tls_eq, s.infos_eq, j.back, s.handlers_eq, spin_lock-free s.h.ns_lock j.lock_free)
        (rw (s.infos_eq, thread_remove_from_ns)
          (rw (j.back, same)
            (rw (lt→ltb id w.ns_max s.id_fits, j.worker_eq)
              (rw (s.namespaces_eq, spin_lock-free s.ns.threads_lock j.threads_free)
                (rw short (rw same refl))))))

has-head : (t : ℕ) (ts : List ℕ) → has t (t ∷ ts) ≡ true
unfolding has
has-head t ts = let same : (t == t) ≡ true = ground arith in rw same refl

unlink-head : (t : ℕ) (ts : List ℕ) → unlink t (t ∷ ts) ≡ ts
unfolding unlink
unlink-head t ts = let same : (t == t) ≡ true = ground arith in rw same refl

module _ (w : World) (me id : ℕ) (j : CanJoin w me id) where
  -- The namespace after the thread has left it.
  pub record Parted (w' : World) : Type 0 where
    pub ns' : Namespace
    pub has_ns : w'.namespaces j.can_read.p ≡ some ns'
    pub same_threads : ns'.threads ≡ j.can_read.ns.threads
    pub threads_free' : IsFree ns'.threads_lock
    pub same_infos : w'.infos ≡ w.infos
    pub same_tls : w'.tls ≡ w.tls

  -- Where the thread may use the namespace, which the worker knows too, both locks are free,
  -- memory is got and the list has fewer than 99999 threads, a thread that joins the namespace and then leaves it finds itself in the list; the
  -- list of threads is then as it was, and the lock of the list is free.
  pub thread_set_ns-thread_del_ns :
      HasRoom j.can_read.ns.threads
      → (w' : World) × ((thread_set_ns me id true >>= λ b. thread_del_ns me id) w ≡ ok (true, w'))
        × Parted w'
  unfolding world_joined-CanJoin
  thread_set_ns-thread_del_ns room =
      let s = j.can_read in
      let there : (s.p == s.p) ≡ true = ground arith in
      let j' = world_joined-CanJoin w me id j in
      (
        world_left (world_joined w me id j) me id j',
        rw (set_runs w me id j room) (
            del_runs (world_joined w me id j) me id j' (omega (arith, room))
            ∙ ap (λ (b : Bool). ok (b, world_left (world_joined w me id j) me id j'))
                (has-head s.t s.ns.threads)),
        record {
          ns' = left_ns (world_joined w me id j) me id j';
          has_ns = rw there refl;
          same_threads = unlink-head s.t s.ns.threads;
          threads_free' = spin_unlock-IsFree (joined_ns s.t s.ns).threads_lock j'.threads_free;
          same_infos = refl;
          same_tls = refl;
        },
      )
