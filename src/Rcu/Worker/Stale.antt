-- ===== src/Rcu/Worker/Stale.antt =====
-- A round of the worker when no thread is in a read section.
use light_rcu.Prelude.{
  ℕ, length, ◌<◌, ◌+◌, ◌≡◌, refl, ap, ap₂, not, Option, List, ◌++◌, map, ok, select, ◌%◌,
}
use light_rcu.LinkedList.{check_depth}
use light_rcu.Qsort.{Qsort}
use light_rcu.Range.{Range, Slots, getmin, u64_mod}
use light_rcu.Range.Spec.{contains}
use light_rcu.Rcu.State.{ThreadInfo, LrcuPtr, PtrHead, Namespace}
use light_rcu.Rcu.Sync.{threads_max}
use light_rcu.Rcu.Sync.Idle.{get_synchronized-Emptied}
use light_rcu.Rcu.Sync.Wait.{Resting, find-Emptied, Emptied-Resting}
use light_rcu.Rcu.Worker.{Round, process_all, processed, ptr_call, head_call}
use light_rcu.Rcu.Worker.Grace.{process_lem}

-- What such a round does: the requests of both kinds in the range that slot 0 of the array holds stay, the others
-- are called, and slot 0 is the same for the next round.
pub record Stale (ranges : Slots) (ns : Namespace) (round : Round) : Type 0 where
  pub kept : round.ns.worker_list ≡ select (λ x. contains (ranges 0) x.version) ns.worker_list
  pub hkept : round.ns.worker_hlist ≡ select (λ x. contains (ranges 0) x.version) ns.worker_hlist
  pub called :
      round.calls
      ≡ map ptr_call (select (λ x. not (contains (ranges 0) x.version)) ns.worker_list)
        ++ map head_call (select (λ x. not (contains (ranges 0) x.version)) ns.worker_hlist)
  pub same_array : round.ranges ≡ ranges
  pub resting : Resting round.ns round.infos
  pub processed_all : round.ns.processed_version ≡ (ns.version + 1) % u64_mod

module _ (q : Qsort Range) (now : ℕ → ℕ) (ranges : Slots) (ns : Namespace)
    (infos : ℕ → Option ThreadInfo) (h : Resting ns infos)
    (short : length ns.worker_list < check_depth)
    (hshort : length ns.worker_hlist < check_depth) where
  -- While no thread is in a read section, the lock is free and each of the worker's two lists has fewer
  -- than 100000 requests, a round of the worker ends normally: of both lists it serves just the requests
  -- outside the range in slot 0 of its array, and keeps those inside it, and it leaves that array as it
  -- was; yet `processed_version` is then the present version plus 1.
  pub process_all-Stale :
      (round : Round) × (process_all q now ranges ns infos ≡ ok round) × Stale ranges ns round
  unfolding process_all getmin processed
  process_all-Stale =
      let (s, runs, d) =
        get_synchronized-Emptied q now ns infos ranges threads_max h.lock_free h.small h.idle
          h.hung_idle in
      let f = contains (ranges 0) in
      let finds = λ (v : ℕ). find-Emptied q ranges now ns infos s v d in
      let same = ap (λ (n : Namespace). n.worker_list) d.frame in
      let hsame = ap (λ (n : Namespace). n.worker_hlist) d.frame in
      let same_version = ap (λ (n : Namespace). n.version) d.frame in
      let served = λ (xs : List LrcuPtr). map ptr_call (select (λ x. not (f x.version)) xs) in
      let hserved = λ (xs : List PtrHead). map head_call (select (λ x. not (f x.version)) xs) in
      let r = Emptied-Resting q ranges now ns infos s h.small d in
      (
        record {
          ns = record s.ns {
            worker_list = select (λ x. f x.version) s.ns.worker_list;
            worker_hlist = select (λ x. f x.version) s.ns.worker_hlist;
            processed_version = (s.ns.version + 1) % u64_mod;
          };
          infos = s.infos;
          ranges = s.tree.r;
          calls = served s.ns.worker_list ++ hserved s.ns.worker_hlist;
        },
        rw runs (
            rw
              (process_lem (λ x. x.version) ptr_call s.tree f s.ns.worker_list (rw same short)
                finds)
              (rw
                (process_lem (λ x. x.version) head_call s.tree f s.ns.worker_hlist (rw hsame hshort)
                  finds)
                (rw d.is_sorted (rw d.no_ranges refl)))),
        record {
          kept = ap (select (λ (x : LrcuPtr). f x.version)) same;
          hkept = ap (select (λ (x : PtrHead). f x.version)) hsame;
          called = ap₂ (λ xs ys. served xs ++ hserved ys) same hsame;
          same_array = d.same_array;
          resting = record {
            lock_free = r.lock_free;
            small = r.small;
            idle = r.idle;
            hung_idle = r.hung_idle;
          };
          processed_all = ap (λ (v : ℕ). (v + 1) % u64_mod) same_version;
        },
      )
