-- ===== src/Rcu/Sync/Gathers.antt =====
-- What `__lrcu_get_synchronized` returns: the versions that readers may hold, as disjoint ranges.
use light_rcu.Prelude.{
  ℕ, ◌+◌, ◌*◌, ◌≤◌, ◌<◌, ◌≡◌, refl, sym, ◌∙◌, subst, true, false, Option, none, some, List, [], ◌∷◌,
  ok, arith, length, All,
}
use light_rcu.Qsort.{Qsort}
use light_rcu.Range.{Range, RangeTree, live, empty_value, tree_init, Slots}
use light_rcu.Range.Spec.{covers, IsDisjoint}
use light_rcu.Range.Merge.{IsTree, optimize-merge}
use light_rcu.Spinlock.{spin_unlock}
use light_rcu.Spinlock.Word.{IsFree, taken, spin_lock-free, spin_unlock-IsFree}
use light_rcu.Rcu.State.{LocalNs, ThreadInfo, Namespace}
use light_rcu.Rcu.Sync.{Scan, get_synchronized, Synchronized}
use light_rcu.Rcu.Sync.Covers.{lns_at, may_hold, held, busy_since, Readers, Readers-eq}
use light_rcu.Rcu.Sync.Visits.{scan_threads-Scanned}
use light_rcu.Rcu.Sync.Hung.{Quiet, scan_hung-HungScanned}

may_hold-quiet :
    (current v : ℕ) (i : Option LocalNs) → busy_since i v ≡ false → may_hold current i v ≡ false
may_hold-quiet current v none h = refl
may_hold-quiet current v (some l) h = ground arith

held-Quiet :
    (infos : ℕ → Option ThreadInfo) (ns_id current : ℕ) (ps : List ℕ) (v : ℕ)
    → All (Quiet infos ns_id v) ps
    → held infos ns_id current ps v ≡ false
held-Quiet infos ns_id current [] v h = refl
held-Quiet infos ns_id current (p ∷ ps) v h =
    rw (may_hold-quiet current v (lns_at infos ns_id p) h.0)
      (held-Quiet infos ns_id current ps v h.1)

Quiet-eq :
    (f g : ℕ → Option ThreadInfo) (ns_id v : ℕ) (ps : List ℕ)
    → ((k : ℕ) → lns_at f ns_id k ≡ lns_at g ns_id k)
    → All (Quiet f ns_id v) ps
    → All (Quiet g ns_id v) ps
Quiet-eq f g ns_id v [] same h = tt
Quiet-eq f g ns_id v (p ∷ ps) same h =
    (subst (λ i. busy_since i v ≡ false) (same p) h.0, Quiet-eq f g ns_id v ps same h.1)

-- The state in which the pass is entered: the lock is free, versions are below the greatest one,
-- every thread in the two lists has its information, and no section began in the future. Each
-- thread may add a range in each loop.
pub record CanGather (ns : Namespace) (infos : ℕ → Option ThreadInfo) (cap : ℕ) : Type 0 where
  pub lock_free : IsFree ns.threads_lock
  pub small : ns.version < empty_value
  pub readers : Readers infos ns.id ns.version ns.threads
  pub hung_readers : Readers infos ns.id ns.version ns.hung_threads
  pub fits : 2 * length ns.threads + length ns.hung_threads ≤ cap

pub record Gathers (ns : Namespace) (infos : ℕ → Option ThreadInfo) (cap : ℕ) (out : Synchronized)
    : Type 0 where
  pub tree : IsTree out.tree
  pub disjoint : IsDisjoint (live out.tree)
  pub same_capacity : out.tree.capacity ≡ cap
  pub is_sorted : out.tree.sorted ≡ true
  pub reaches :
      (v : ℕ) → held infos ns.id ns.version ns.threads v ≡ true → covers (live out.tree) v ≡ true
  pub only :
      (v : ℕ)
      → All (Quiet infos ns.id v) ns.threads
      → All (Quiet infos ns.id v) ns.hung_threads
      → covers (live out.tree) v ≡ false
  pub same_lns : (p : ℕ) → lns_at out.infos ns.id p ≡ lns_at infos ns.id p
  pub frame : out.ns ≡ record ns {
    threads_lock = out.ns.threads_lock;
    threads = out.ns.threads;
    hung_threads = out.ns.hung_threads;
  }
  pub lock_free : IsFree out.ns.threads_lock

module _ (q : Qsort Range) (now : ℕ → ℕ) (ns : Namespace) (infos : ℕ → Option ThreadInfo)
    (ranges : Slots) (cap : ℕ) (g : CanGather ns infos cap) where
  abbrev start : RangeTree
  start = tree_init ranges cap

  start-IsTree : IsTree start
  unfolding tree_init
  start-IsTree = record { fits = omega arith; used_all = tt; ordered = λ e. cc }

  -- Where `CanGather` holds (the lock is free, the version is below the greatest one, all threads
  -- have their information and entered their sections at a version up to the present one, and the
  -- ranges fit), the pass ends normally with sorted, disjoint ranges. They cover every version from
  -- the one at which a thread of `threads` that is in a read section entered it up to the present
  -- one, and no version before which no section of a thread of `threads` or `hung_threads` began.
  -- The threads' sections stay as they are, and so does the namespace but for its two lists of
  -- threads and their lock, which is free again.
  pub get_synchronized-Gathers :
      (out : Synchronized) × (get_synchronized q now ns infos start ≡ ok out)
      × Gathers ns infos cap out
  unfolding get_synchronized tree_init
  get_synchronized-Gathers =
      let s0 : Scan = record { tree = start; infos = infos; hung = ns.hung_threads } in
      let (out1, runs1, d1) =
        scan_threads-Scanned q ns.id ns.version g.small now ns.threads s0 g.readers start-IsTree
          (omega (arith, g.fits)) in
      let hung_readers =
        Readers-eq ns.id ns.version infos out1.1.infos out1.1.hung (λ k. sym (d1.same_lns k))
          (d1.hung_all _ g.readers g.hung_readers) in
      let (out2, runs2, d2) =
        scan_hung-HungScanned q ns.id ns.version g.small out1.1.infos out1.1.hung out1.0 out1.1.tree
          hung_readers d1.tree (omega (arith, d1.grows, d1.same_capacity, d1.counts, g.fits)) in
      let (t, runs3, m) = optimize-merge q out2.2 d2.tree_ok in
      (
        record {
          ns = record ns {
            threads_lock = spin_unlock (taken ns.threads_lock);
            threads = out2.1;
            hung_threads = out2.0;
          };
          infos = out1.1.infos;
          tree = t;
        },
        rw (spin_lock-free ns.threads_lock g.lock_free) (rw runs1 (rw runs2 (rw runs3 refl))),
        record {
          tree = m.tree;
          disjoint = m.disjoint;
          same_capacity = m.same_capacity ∙ d2.same_capacity ∙ d1.same_capacity;
          is_sorted = m.is_sorted;
          reaches = λ v h. m.same_cover v ∙ d2.keeps v (d1.cover v ∙ rw h refl);
          only = λ v h k.
              m.same_cover v
              ∙ d2.adds_nothing v (
                  Quiet-eq infos out1.1.infos ns.id v out1.1.hung (λ p. sym (d1.same_lns p))
                    (d1.hung_all _ h k))
              ∙ d1.cover v
              ∙ held-Quiet infos ns.id ns.version ns.threads v h;
          same_lns = d1.same_lns;
          frame = refl;
          lock_free = spin_unlock-IsFree ns.threads_lock g.lock_free;
        },
      )
