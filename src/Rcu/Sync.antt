-- ===== src/Rcu/Sync.antt =====
-- src/lrcu.c: `__lrcu_get_synchronized`, which gathers the ranges of versions that readers may hold,
-- and detects hung threads; `lrcu_synchronize_ns`, which waits.
pub mod Covers
pub mod Visits
pub mod Hung
pub mod Gathers
pub mod Grace
pub mod Ends
pub mod Idle
pub mod Wait
pub mod Timer
use light_rcu.Prelude.{
  ℕ, zero, suc, ◌+◌, ◌*◌, Bool, true, false, not, ◌&&◌, ◌||◌, Option, none, some, List, [], ◌∷◌,
  ltb, leb, ◌==◌, if◌then◌else◌, update, Run, ok, undefined, out_of_fuel, ◌>>=◌, ◌>>◌, assert,
}
use light_rcu.Qsort.{Qsort}
use light_rcu.Range.{Range, Slots, RangeTree, tree_init, add, optimize, optlevel_merge, find}
use light_rcu.Spinlock.{spin_lock, spin_unlock}
use light_rcu.Rcu.State.{LocalNs, ThreadInfo, Namespace}

-- `LRCU_THREADS_MAX`
abbrev pub threads_max : ℕ
threads_max = 128

-- `LRCU_HANG_TIMEOUT_S`, in microseconds
abbrev pub hang_timeout : ℕ
hang_timeout = 600 * 1_000_000

-- The objects that the pass over the threads of a namespace changes.
pub record Scan : Type 0 where
  pub tree : RangeTree
  pub infos : ℕ → Option ThreadInfo
  pub hung : List ℕ

-- `*ti`, undefined if the thread's information has been freed.
abbrev pub present : Option ThreadInfo → Run ThreadInfo
present none = undefined
present (some ti) = ok ti

-- The timer is set, the thread has not entered a section since the last pass, and the time is up.
unfoldable pub hangs : ℕ → ℕ → ThreadInfo → Bool
hangs ns_id now ti =
    not (ti.timeval ns_id == 0)
    && leb (ti.lns ns_id).version (ti.hung_lns ns_id).version
    && not (ltb now (ti.timeval ns_id + hang_timeout))

-- What the pass writes of a thread in a read section, and of one that is not.
unfoldable pub busy_info : ℕ → ℕ → ℕ → ThreadInfo → ThreadInfo
busy_info ns_id current now ti = record ti {
  timeval = if ti.timeval ns_id == 0 then update ti.timeval ns_id now else ti.timeval;
  hung_lns = update ti.hung_lns ns_id (record (ti.lns ns_id) { version = current });
}

unfoldable pub idle_info : ℕ → ThreadInfo → ThreadInfo
idle_info ns_id ti = record ti { timeval = update ti.timeval ns_id 0 }

-- The tests of the second loop: the thread has entered a section since it was found to hang, or has
-- left the one it was in.
unfoldable pub is_ahead : ℕ → ThreadInfo → Bool
is_ahead ns_id ti = ltb (ti.hung_lns ns_id).version (ti.lns ns_id).version

unfoldable pub goes_back : ℕ → ThreadInfo → Bool
unfolding is_ahead
goes_back ns_id ti = is_ahead ns_id ti || ((ti.lns ns_id).counter == 0)

module _ (q : Qsort Range) (ns_id current : ℕ) where
  -- The range that the second loop adds for a thread in a read section.
  unfoldable pub add_window : ThreadInfo → RangeTree → Run RangeTree
  add_window ti tree =
      if (ti.lns ns_id).counter == 0
      then ok tree
      else if is_ahead ns_id ti
      then add q tree (ti.lns ns_id).version current
      else add q tree (ti.lns ns_id).version (ti.hung_lns ns_id).version

  -- The first loop, over `threads`; `now p` is the time when thread `p` is visited. It returns the
  -- threads that stay in the list.
  unfoldable pub scan_threads : (ℕ → ℕ) → List ℕ → Scan → Run (List ℕ × Scan)
  scan_threads now [] s = ok ([], s)
  scan_threads now (p ∷ ps) s = do
    ti ← present (s.infos p)
    if (ti.lns ns_id).counter == 0
        then (do
          (kept, s') ←
              scan_threads now ps
                (record s { infos = update s.infos p (some (idle_info ns_id ti)) })
          ok (p ∷ kept, s'))
        else (do
          tree ← add q s.tree (ti.lns ns_id).version current
          let hung = hangs ns_id (now p) ti
          (kept, s') ← scan_threads now ps (record {
            tree = tree;
            infos = update s.infos p (some (busy_info ns_id current (now p) ti));
            hung = if hung then p ∷ s.hung else s.hung;
          })
          ok (if hung then kept else p ∷ kept, s'))

  -- The second loop, over `hung_threads`: a thread that has moved on goes back to `threads`. It
  -- returns the two lists.
  unfoldable pub scan_hung :
      (ℕ → Option ThreadInfo) → List ℕ → List ℕ → RangeTree → Run (List ℕ × List ℕ × RangeTree)
  scan_hung infos [] threads tree = ok ([], threads, tree)
  scan_hung infos (p ∷ ps) threads tree = do
    ti ← present (infos p)
    let back = goes_back ns_id ti
    tree' ← add_window ti tree
    (hung, threads', tree'') ← scan_hung infos ps (if back then p ∷ threads else threads) tree'
    ok (if back then hung else p ∷ hung, threads', tree'')

-- What `__lrcu_get_synchronized` leaves: the namespace, the threads and the tree.
pub record Synchronized : Type 0 where
  pub ns : Namespace
  pub infos : ℕ → Option ThreadInfo
  pub tree : RangeTree

-- `__lrcu_get_synchronized`
unfoldable pub get_synchronized :
    Qsort Range → (ℕ → ℕ) → Namespace → (ℕ → Option ThreadInfo) → RangeTree → Run Synchronized
get_synchronized q now ns infos rbt = do
  let current = ns.version
  l ← spin_lock ns.threads_lock
  (threads, s) ←
      scan_threads q ns.id current now ns.threads
        (record { tree = rbt; infos = infos; hung = ns.hung_threads })
  (hung, threads', tree) ← scan_hung q ns.id current s.infos s.hung threads s.tree
  (tree', changed) ← optimize q tree optlevel_merge
  ok (record {
    ns = record ns { threads_lock = spin_unlock l; threads = threads'; hung_threads = hung };
    infos = s.infos;
    tree = tree';
  })

-- The loop of `lrcu_synchronize_ns`, on fuel. `ranges` is its array on the stack, which is not
-- cleared between the rounds; `others k` is what the other threads do to the namespace and to the
-- threads' information while round `k` sleeps. It returns the round at which it stops.
unfoldable pub sync_rounds :
    Qsort Range
    → (ℕ → ℕ → ℕ)
    → (ℕ → Namespace × (ℕ → Option ThreadInfo) → Namespace × (ℕ → Option ThreadInfo))
    → ℕ
    → ℕ
    → ℕ
    → Slots
    → Namespace × (ℕ → Option ThreadInfo)
    → Run (ℕ × Synchronized)
sync_rounds q now others zero k current ranges (ns, infos) = out_of_fuel
sync_rounds q now others (suc fuel) k current ranges (ns, infos) = do
  s ← get_synchronized q (now k) ns infos (tree_init ranges threads_max)
  found ← find s.tree current
  elim found [
    | true ↦ sync_rounds q now others fuel (k + 1) current s.tree.r (others k (s.ns, s.infos))
    | false ↦ ok (k, s)
  ]

-- `lrcu_synchronize_ns` for a thread that is in no section, on the namespace that it looks up.
unfoldable pub synchronize_ns :
    Qsort Range
    → (ℕ → ℕ → ℕ)
    → (ℕ → Namespace × (ℕ → Option ThreadInfo) → Namespace × (ℕ → Option ThreadInfo))
    → ℕ
    → Slots
    → Namespace
    → (ℕ → Option ThreadInfo)
    → Option LocalNs
    → Run (ℕ × Synchronized)
unfolding sync_rounds
synchronize_ns q now others fuel ranges ns infos own = do
  assert (elim own [ none ↦ true | some l ↦ l.counter == 0 ])
  sync_rounds q now others fuel 0 ns.version ranges (ns, infos)
