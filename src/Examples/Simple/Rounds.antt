-- ===== src/Examples/Simple/Rounds.antt =====
-- A round of a reader and of a writer of simple-api-1.c, with no other thread in between.
use light_rcu.Prelude.{
  ℕ, suc, length, ◌+◌, ◌%◌, ◌<◌, ◌≡◌, ◌≢◌, refl, true, false, not, some, ◌∷◌, ◌==◌, lt→ltb, update,
  ok, arith,
}
use light_rcu.Prelude.Commands.{◌>>=◌}
use light_rcu.LinkedList.{check_depth}
use light_rcu.Range.{u64_mod}
use light_rcu.Spinlock.{spin_unlock}
use light_rcu.Spinlock.Word.{IsFree, taken, spin_lock-free, spin_unlock-IsFree}
use light_rcu.Rcu.State.{Namespace, World}
use light_rcu.Rcu.Reader.{i32_end}
use light_rcu.Rcu.Reader.Nesting.{CanRead, Left, read_lock_lem, read_lock-read_unlock}
use light_rcu.Rcu.Writer.{
  bump, write_barrier_ns, write_lock_ns, write_unlock_ns, assign_pointer_ns, with_request,
  add_request, call_ns,
}
use light_rcu.Rcu.Writer.Handover.{CanWrite}
use light_rcu.Examples.{SharedData, invalid_before, invalid_after, Client}
use light_rcu.Examples.Simple.{
  reader_round, writer_section, shared_data_release, destructor_function,
}

module _ (k : Client) (me cell : ℕ) (s : CanRead k.world me 0) where
  -- Where the handler, the namespace and the thread's information exist and the counter does not
  -- overflow, a round of the reader on an object whose `c` is neither 0 nor `INVALID_C_AFTER` ends
  -- normally. It tells whether `c` is not `INVALID_C_BEFORE`, leaves the objects as they are, and leaves
  -- of its section what entering and leaving one leaves.
  pub reader_round-Left :
      (d : SharedData)
      → k.world.cells cell ≢ 0
      → k.objects (k.world.cells cell) ≡ some d
      → d.c ≢ 0
      → d.c ≢ invalid_after
      → (s.info.lns 0).counter + 1 < i32_end
      → (w : World) × (reader_round me cell k
          ≡ ok (not (d.c == invalid_before), record { world = w; objects = k.objects }))
        × Left k.world me 0 s w
  unfolding reader_round
  reader_round-Left d there has pos alive nests =
      let (w, runs, left) = read_lock-read_unlock k.world me 0 s nests in
      let unlocks = rw (read_lock_lem k.world me 0 s nests) at runs in
      let e : (k.world.cells cell == 0) ≡ false = ground arith in
      let p : (d.c == 0) ≡ false = ground arith in
      let a : (d.c == invalid_after) ≡ false = ground arith in
      (w, rw (read_lock_lem k.world me 0 s nests) (rw (e, has, p, a, unlocks) refl), left)

module _ (k : Client) (cell new shptr : ℕ) (s : CanWrite k.world 0) (d : SharedData) where
  -- What replacing the object leaves.
  pub record Replaced (k' : Client) : Type 0 where
    pub cell_is : k'.world.cells cell ≡ new
    pub made : k'.objects new ≡ some (record { c = d.c + 1; shptr = shptr })
    pub marked : k'.objects (k.world.cells cell) ≡ some (record d { c = invalid_before })
    pub ns' : Namespace
    pub has_ns : k'.world.namespaces s.p ≡ some ns'
    pub version_is : ns'.version ≡ s.ns.version + 2
    pub lock_free : IsFree ns'.write_lock
    pub queued :
        ns'.free_list
        ≡ record {
          ptr = k.world.cells cell;
          deinit = destructor_function;
          version = s.ns.version + 2;
          ns_id = 0;
        }
          ∷ s.ns.free_list

  -- The namespace after each of the four calls.
  abbrev locked_ns : Namespace
  locked_ns = bump (record s.ns { write_lock = taken s.ns.write_lock })

  abbrev unlocked_ns : Namespace
  unlocked_ns = record (bump locked_ns) { write_lock = spin_unlock (taken s.ns.write_lock) }

  abbrev last_ns : Namespace
  last_ns = record (with_request (k.world.cells cell) destructor_function unlocked_ns) {
    list_lock = spin_unlock (taken s.ns.list_lock);
  }

  abbrev after : Client
  after = record {
    world = record k.world {
      namespaces =
          update
            (update
              (update (update k.world.namespaces s.p (some locked_ns)) s.p (some (bump locked_ns)))
              s.p (some unlocked_ns))
            s.p (some last_ns);
      cells = update k.world.cells cell new;
    };
    objects =
        update (update k.objects new (some (record { c = (d.c + 1) % u64_mod; shptr = shptr })))
          (k.world.cells cell) (some (record d { c = invalid_before }));
  }

  -- Where the handler and the namespace exist, both locks are free, the version is not one of the last
  -- two, fewer than 99999 new requests wait, memory is got for a new object and for the request, and the cell has an object whose `c` is
  -- not the last one, a round of the writer ends normally. The cell then has the new object, whose `c`
  -- is one more; the old one is marked as released, and the request for it heads the list, with the
  -- version two above the one before, which is that of the namespace then; the write lock is free.
  pub round-Replaced :
      k.world.cells cell ≢ 0
      → k.objects (k.world.cells cell) ≡ some d
      → d.c + 1 < u64_mod
      → s.ns.version + 2 < u64_mod
      → length s.ns.free_list + 1 < check_depth
      → IsFree s.ns.write_lock
      → new ≢ k.world.cells cell
      → (k' : Client) × ((writer_section (some new) shptr cell >>= shared_data_release true) k
          ≡ ok (tt, k'))
        × Replaced k'
  unfolding writer_section shared_data_release write_lock_ns write_unlock_ns assign_pointer_ns
      write_barrier_ns call_ns add_request bump
  round-Replaced there has fits late room free other =
      let same : (s.p == s.p) ≡ true = ground arith in
      let found = lt→ltb 0 k.world.ns_max s.id_fits in
      let here : (cell == cell) ≡ true = ground arith in
      let e : (k.world.cells cell == 0) ≡ false = ground arith in
      let n : (k.world.cells cell == new) ≡ false = ground arith in
      let n' : (new == k.world.cells cell) ≡ false = ground arith in
      let o : (k.world.cells cell == k.world.cells cell) ≡ true = ground arith in
      let i : (new == new) ≡ true = ground arith in
      let short = lt→ltb (suc (length s.ns.free_list)) check_depth (omega (arith, room)) in
      let c_fits : (d.c + 1) % u64_mod ≡ d.c + 1 = omega (arith, fits) in
      let v : ((s.ns.version + 1) % u64_mod + 1) % u64_mod ≡ s.ns.version + 2 =
        omega (arith, late) in
      (
        after,
        rw (s.handler_eq, s.handlers_eq, found, s.ns_eq, s.namespaces_eq)
            (rw (spin_lock-free s.ns.write_lock free) (
              rw (e, has)
                (rw (s.handlers_eq, assign_pointer_ns)
                  (rw (found, s.ns_eq, same)
                    (rw (s.handlers_eq, write_unlock_ns)
                      (rw (found, s.ns_eq, same)
                        (rw (e, has, n)
                          (rw (s.handlers_eq, call_ns)
                            (rw (found, s.ns_eq, same)
                              (rw (spin_lock-free s.ns.list_lock s.list_free)
                                (rw short refl))))))))))),
        record {
          cell_is = rw here refl;
          made = rw (n', i, c_fits) refl;
          marked = rw o refl;
          ns' = last_ns;
          has_ns = rw same refl;
          version_is = v;
          lock_free = spin_unlock-IsFree s.ns.write_lock free;
          queued = rw v refl;
        },
      )
