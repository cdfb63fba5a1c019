-- ===== src/Rcu/Sync/Idle.antt =====
-- `__lrcu_get_synchronized` when no thread is in a read section.
use light_rcu.Prelude.{
  ℕ, ◌<◌, ◌≡◌, refl, sym, ◌∙◌, subst, true, not, Option, none, some, List, [], ◌∷◌, ◌==◌, ok, arith,
  length, All, update,
}
use light_rcu.Prelude.Perms.{length-perm}
use light_rcu.Qsort.{Cmp, Qsort}
use light_rcu.Range.{
  Range, RangeTree, Slots, tree_init, optimize, optlevel_merge, ensure_sorted, cmp_ranges,
  remove_overlapping, overlap_rounds, empty_value,
}
use light_rcu.Spinlock.{spin_unlock}
use light_rcu.Spinlock.Word.{IsFree, taken, spin_lock-free, spin_unlock-IsFree}
use light_rcu.Rcu.State.{LocalNs, ThreadInfo, Namespace}
use light_rcu.Rcu.Sync.{
  Scan, scan_threads, scan_hung, idle_info, goes_back, add_window, get_synchronized, Synchronized,
}
use light_rcu.Rcu.Sync.Covers.{lns_of, lns_at, lns_at-update}
use light_rcu.Rcu.Sync.Visits.{scan_threads-idle}
use light_rcu.Rcu.Sync.Hung.{scan_hung-next}

abbrev pub IsIdle : Option LocalNs → Type 0
IsIdle none = ⊥
IsIdle (some l) = l.counter ≡ 0

-- The threads have their information, and none is in a read section.
abbrev pub AllIdle : (ℕ → Option ThreadInfo) → ℕ → List ℕ → Type 0
AllIdle infos ns_id ps = All (λ p. IsIdle (lns_at infos ns_id p)) ps

pub AllIdle-eq :
    (f g : ℕ → Option ThreadInfo) (ns_id : ℕ) (ps : List ℕ)
    → ((k : ℕ) → lns_at f ns_id k ≡ lns_at g ns_id k)
    → AllIdle f ns_id ps
    → AllIdle g ns_id ps
AllIdle-eq f g ns_id [] same h = tt
AllIdle-eq f g ns_id (p ∷ ps) same h = (subst IsIdle (same p) h.0, AllIdle-eq f g ns_id ps same h.1)

idle-info :
    (ns_id : ℕ) (i : Option ThreadInfo)
    → IsIdle (lns_of ns_id i)
    → (ti : ThreadInfo) × (i ≡ some ti) × ((ti.lns ns_id).counter ≡ 0)
idle-info ns_id none h = absurd h
idle-info ns_id (some ti) h = (ti, refl, h)

module _ (q : Qsort Range) (ns_id current : ℕ) (small : current < empty_value) where
  -- The first loop only clears timers.
  scan_threads-quiet :
      (now : ℕ → ℕ) (ps : List ℕ) (s : Scan)
      → AllIdle s.infos ns_id ps
      → (s' : Scan) × (scan_threads q ns_id current now ps s ≡ ok (ps, s'))
        × (s'.tree ≡ s.tree)
        × (s'.hung ≡ s.hung)
        × ((k : ℕ) → lns_at s'.infos ns_id k ≡ lns_at s.infos ns_id k)
  scan_threads-quiet now [] s h = (s, unfold scan_threads in refl, refl, refl, λ k. refl)
  scan_threads-quiet now (p ∷ ps) s h =
      let (ti, e, c) = idle-info ns_id (s.infos p) h.0 in
      let same =
        lns_at-update ns_id current s.infos p ti (idle_info ns_id ti) e
          (unfold idle_info in refl) in
      let (s', runs, t, hung, l) =
        scan_threads-quiet now ps
          (record s { infos = update s.infos p (some (idle_info ns_id ti)) })
          (AllIdle-eq s.infos _ ns_id ps (λ k. sym (same k)) h.1) in
      (s', scan_threads-idle q ns_id current small now p ps s e c runs, t, hung, λ k. l k ∙ same k)

  scan_hung-back :
      (infos : ℕ → Option ThreadInfo) (p : ℕ) (ps threads : List ℕ) (tree : RangeTree)
      {ti : ThreadInfo} {threads' : List ℕ}
      → infos p ≡ some ti
      → (ti.lns ns_id).counter ≡ 0
      → scan_hung q ns_id current infos ps (p ∷ threads) tree ≡ ok ([], threads', tree)
      → scan_hung q ns_id current infos (p ∷ ps) threads tree ≡ ok ([], threads', tree)
  unfolding add_window goes_back
  scan_hung-back infos p ps threads tree {ti} {threads'} e c r =
      let back : goes_back ns_id ti ≡ true = ground arith in
      scan_hung-next q ns_id current small infos p ps threads tree tree {out = ([], threads', tree)}
        e (rw c refl) (rw back r)
      ∙ rw back refl

  -- The second loop takes every thread back.
  scan_hung-quiet :
      (infos : ℕ → Option ThreadInfo) (ps threads : List ℕ) (tree : RangeTree)
      → AllIdle infos ns_id ps
      → (threads' : List ℕ) × (scan_hung q ns_id current infos ps threads tree
          ≡ ok ([], threads', tree))
        × (AllIdle infos ns_id threads → AllIdle infos ns_id threads')
  scan_hung-quiet infos [] threads tree h = (threads, unfold scan_hung in refl, λ a. a)
  scan_hung-quiet infos (p ∷ ps) threads tree h =
      let (ti, e, c) = idle-info ns_id (infos p) h.0 in
      let (threads', runs, all) = scan_hung-quiet infos ps (p ∷ threads) tree h.1 in
      (threads', scan_hung-back infos p ps threads tree e c runs, λ a. all (h.0, a))

module _ (q : Qsort Range) (ranges : Slots) (cap : ℕ) where
  sort-empty : (cmp : Range → Range → Cmp) → q.sort cmp [] ≡ []
  sort-empty cmp = empty_of (q.sort cmp []) (length-perm (q.sort-perm cmp []))
    where
      empty_of : (xs : List Range) → length xs ≡ 0 → xs ≡ []
      empty_of [] e = refl
      empty_of (x ∷ xs) e = absurd (omega arith)

  abbrev empty_tree : RangeTree
  empty_tree = record { len = 0; capacity = cap; sorted = true; r = ranges }

  -- Merging an empty tree leaves the array alone.
  optimize-empty :
      optimize q (tree_init ranges cap) optlevel_merge ≡ ok (empty_tree, not (0 == cap))
  unfolding optimize tree_init ensure_sorted remove_overlapping overlap_rounds
  optimize-empty = rw (sort-empty cmp_ranges) refl

module _ (q : Qsort Range) (now : ℕ → ℕ) (ns : Namespace) (infos : ℕ → Option ThreadInfo)
    (ranges : Slots) (cap : ℕ) where
  -- What the pass leaves when no thread is in a section.
  pub record Emptied (out : Synchronized) : Type 0 where
    pub no_ranges : out.tree.len ≡ 0
    pub same_array : out.tree.r ≡ ranges
    pub same_capacity : out.tree.capacity ≡ cap
    pub is_sorted : out.tree.sorted ≡ true
    pub lock_free : IsFree out.ns.threads_lock
    pub threads_idle : AllIdle out.infos ns.id out.ns.threads
    pub none_hung : out.ns.hung_threads ≡ []
    pub frame : out.ns ≡ record ns {
      threads_lock = out.ns.threads_lock;
      threads = out.ns.threads;
      hung_threads = out.ns.hung_threads;
    }

  -- With no thread in a read section the tree is empty, and the array is what it was.
  pub get_synchronized-Emptied :
      IsFree ns.threads_lock
      → ns.version < empty_value
      → AllIdle infos ns.id ns.threads
      → AllIdle infos ns.id ns.hung_threads
      → (out : Synchronized) × (get_synchronized q now ns infos (tree_init ranges cap) ≡ ok out)
        × Emptied out
  unfolding get_synchronized
  get_synchronized-Emptied free small idle hung_idle =
      let s0 : Scan = record {
        tree = tree_init ranges cap;
        infos = infos;
        hung = ns.hung_threads;
      } in
      let (s, runs, t, hung, same) =
        scan_threads-quiet q ns.id ns.version small now ns.threads s0 idle in
      let (threads', runs', all) =
        scan_hung-quiet q ns.id ns.version small s.infos ns.hung_threads ns.threads
          (tree_init ranges cap)
          (AllIdle-eq infos s.infos ns.id ns.hung_threads (λ k. sym (same k)) hung_idle) in
      (
        record {
          ns = record ns {
            threads_lock = spin_unlock (taken ns.threads_lock);
            threads = threads';
            hung_threads = [];
          };
          infos = s.infos;
          tree = empty_tree q ranges cap;
        },
        rw (spin_lock-free ns.threads_lock free)
            (rw runs (rw hung (rw t (rw runs' (rw (optimize-empty q ranges cap) refl))))),
        record {
          no_ranges = refl;
          same_array = refl;
          same_capacity = refl;
          is_sorted = refl;
          lock_free = spin_unlock-IsFree ns.threads_lock free;
          threads_idle = all (AllIdle-eq infos s.infos ns.id ns.threads (λ k. sym (same k)) idle);
          none_hung = refl;
          frame = refl;
        },
      )
