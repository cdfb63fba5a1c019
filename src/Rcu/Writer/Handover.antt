-- ===== src/Rcu/Writer/Handover.antt =====
-- A writer replaces a pointer and hands the old object over for destruction.
use light_rcu.Prelude.{
  ℕ, suc, length, ◌+◌, ◌%◌, ◌≤◌, ◌<◌, ◌≡◌, refl, true, some, ◌∷◌, ◌==◌, lt→ltb, update, ok, arith,
}
use light_rcu.LinkedList.{check_depth}
use light_rcu.Range.{u64_mod}
use light_rcu.Spinlock.{spin_unlock}
use light_rcu.Spinlock.Word.{IsFree, taken, spin_lock-free, spin_unlock-IsFree}
use light_rcu.Rcu.State.{LocalNs, LrcuPtr, Namespace, Handler, World, ◌>>◌}
use light_rcu.Rcu.Sync.Covers.{may_hold}
use light_rcu.Rcu.Writer.{
  bump, write_barrier_ns, assign_pointer_ns, with_request, add_request, call_ns,
}

-- The handler and the namespace exist, the version is not the last one, and the lock is free.
pub record CanWrite (w : World) (id : ℕ) : Type 0 where
  pub hp : ℕ
  pub h : Handler
  pub p : ℕ
  pub ns : Namespace
  pub handler_eq : w.handler ≡ some hp
  pub handlers_eq : w.handlers hp ≡ some h
  pub id_fits : id < w.ns_max
  pub ns_eq : h.ns id ≡ some p
  pub namespaces_eq : w.namespaces p ≡ some ns
  pub version_fits : ns.version + 1 < u64_mod
  pub list_free : IsFree ns.list_lock

-- What replacing the pointer at `pp`, and handing over `old`, leaves: the new pointer is in place, the
-- request is at the head of the new ones, and every reader that was in a section before blocks it.
pub record HandedOver (w : World) (id : ℕ) (s : CanWrite w id) (pp newptr old destr : ℕ)
    (w' : World) : Type 0 where
  pub cell : w'.cells pp ≡ newptr
  pub cells_eq : w'.cells ≡ update w.cells pp newptr
  pub ns' : Namespace
  pub has_ns : w'.namespaces s.p ≡ some ns'
  pub request : LrcuPtr
  pub queued : ns'.free_list ≡ request ∷ s.ns.free_list
  pub request_ptr : request.ptr ≡ old
  pub request_deinit : request.deinit ≡ destr
  pub version_eq : request.version ≡ s.ns.version + 1
  pub present : request.version ≡ ns'.version
  pub list_free' : IsFree ns'.list_lock
  pub guarded :
      (l : LocalNs)
      → 0 < l.counter
      → l.version ≤ s.ns.version
      → may_hold ns'.version (some l) request.version ≡ true
  pub same_infos : w'.infos ≡ w.infos

module _ (w : World) (id : ℕ) (s : CanWrite w id) (pp newptr old destr : ℕ) where
  -- The namespace in the end.
  abbrev after : Namespace
  after = record (with_request old destr (bump s.ns)) {
    list_lock = spin_unlock (taken s.ns.list_lock);
  }

  -- Where the handler and the namespace exist, the version is not the last one, the lock of the
  -- requests is free, fewer than 99999 new requests wait and memory is got, replacing a pointer and then handing over the old object
  -- ends normally. The new pointer is then in place, the request heads the list of new ones, with the
  -- version after the one before the replacement, and each reader in a section entered at a version
  -- up to that one counts as a possible holder of the request's version.
  pub assign_pointer-call :
      length s.ns.free_list + 1 < check_depth
      → (w' : World) × ((assign_pointer_ns id pp newptr >> call_ns true id old destr) w
          ≡ ok (tt, w'))
        × HandedOver w id s pp newptr old destr w'
  unfolding assign_pointer_ns write_barrier_ns call_ns add_request bump
  assign_pointer-call room =
      let same : (s.p == s.p) ≡ true = ground arith in
      let here : (pp == pp) ≡ true = ground arith in
      let fits : (s.ns.version + 1) % u64_mod ≡ s.ns.version + 1 = omega (arith, s.version_fits) in
      let v = s.ns.version + 1 in
      let short = lt→ltb (suc (length s.ns.free_list)) check_depth (omega (arith, room)) in
      (
        record w {
          namespaces = update (update w.namespaces s.p (some (bump s.ns))) s.p (some after);
          cells = update w.cells pp newptr;
        },
        rw (s.handler_eq, s.handlers_eq, lt→ltb id w.ns_max s.id_fits, s.ns_eq, s.namespaces_eq)
            (rw (s.handlers_eq, call_ns)
              (rw (lt→ltb id w.ns_max s.id_fits, s.ns_eq, same)
                (rw (spin_lock-free s.ns.list_lock s.list_free) (rw short refl)))),
        record {
          cell = rw here refl;
          cells_eq = refl;
          ns' = after;
          has_ns = rw same refl;
          request = record { ptr = old; deinit = destr; version = (bump s.ns).version; ns_id = 0 };
          queued = refl;
          request_ptr = refl;
          request_deinit = refl;
          version_eq = fits;
          present = refl;
          list_free' = spin_unlock-IsFree s.ns.list_lock s.list_free;
          guarded = λ l busy old. rw fits (ground arith);
          same_infos = refl;
        },
      )
