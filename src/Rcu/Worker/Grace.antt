-- ===== src/Rcu/Worker/Grace.antt =====
-- The grace period: which requests a round of the worker serves.
use light_rcu.Prelude.{
  ℕ, length, ◌<◌, lt→ltb, ◌≡◌, refl, ◌∙◌, ap, ap₂, Bool, true, false, not, inl, inr, Option, List,
  [], ◌∷◌, ◌++◌, map, ◌==◌, ok, Bool-cases, arith, All, select,
}
use light_rcu.LinkedList.{check_depth}
use light_rcu.Qsort.{Qsort}
use light_rcu.Range.{Range, RangeTree, Slots, find, getmin}
use light_rcu.Rcu.State.{ThreadInfo, LrcuPtr, PtrHead, Namespace, Call}
use light_rcu.Rcu.Sync.{threads_max}
use light_rcu.Rcu.Sync.Covers.{held}
use light_rcu.Rcu.Sync.Hung.{Quiet}
use light_rcu.Rcu.Sync.Gathers.{CanGather, get_synchronized-Gathers}
use light_rcu.Rcu.Worker.{
  process_rounds, process, ptr_call, head_call, Round, process_all, processed,
}
use light_rcu.Rcu.Sync.Grace.{answer, find-answer, answer-safe, answer-exact, not-true}

-- The loops over the worker's lists.
process_rounds_lem :
    {A : Type 0} (version : A → ℕ) (call : A → Call) (t : RangeTree) (f : ℕ → Bool) (xs : List A)
    → ((v : ℕ) → find t v ≡ ok (f v))
    → process_rounds version call t xs
      ≡ ok (select (λ x. f (version x)) xs, map call (select (λ x. not (f (version x))) xs))
unfolding process_rounds
process_rounds_lem version call t f [] h = refl
process_rounds_lem version call t f (x ∷ xs) h = rw (h (version x)) (
    rw (process_rounds_lem version call t f xs h)
      (elim (Bool-cases (f (version x))) [ inl y ↦ rw y refl | inr n ↦ rw n refl ]))

pub process_lem :
    {A : Type 0} (version : A → ℕ) (call : A → Call) (t : RangeTree) (f : ℕ → Bool) (xs : List A)
    → length xs < check_depth
    → ((v : ℕ) → find t v ≡ ok (f v))
    → process version call t xs
      ≡ ok (select (λ x. f (version x)) xs, map call (select (λ x. not (f (version x))) xs))
unfolding process
process_lem version call t f xs short h =
    rw (lt→ltb (length xs) check_depth short) (process_rounds_lem version call t f xs h)

-- What a round with requests in the worker's lists does.
pub record Serves (ns : Namespace) (infos : ℕ → Option ThreadInfo) (round : Round) : Type 0 where
  pub blocked : ℕ → Bool
  pub kept : round.ns.worker_list ≡ select (λ x. blocked x.version) ns.worker_list
  pub hkept : round.ns.worker_hlist ≡ select (λ x. blocked x.version) ns.worker_hlist
  pub called :
      round.calls
      ≡ map ptr_call (select (λ x. not (blocked x.version)) ns.worker_list)
        ++ map head_call (select (λ x. not (blocked x.version)) ns.worker_hlist)
  pub same_free : round.ns.free_list ≡ ns.free_list
  pub same_hfree : round.ns.free_hlist ≡ ns.free_hlist
  pub safe : (v : ℕ) → blocked v ≡ false → held infos ns.id ns.version ns.threads v ≡ false
  pub serves :
      (v w : ℕ)
      → held infos ns.id ns.version ns.threads w ≡ true
      → All (Quiet infos ns.id v) ns.threads
      → All (Quiet infos ns.id v) ns.hung_threads
      → blocked v ≡ false

getmin-runs : (t : RangeTree) → t.sorted ≡ true → (m : ℕ) × (getmin t ≡ ok m)
unfolding getmin
getmin-runs t h = elim (Bool-cases (t.len == 0)) [
  | inl empty ↦ (0, rw h (rw empty refl))
  | inr more ↦ ((t.r 0).minv, rw h (rw more refl))
]

module _ (q : Qsort Range) (now : ℕ → ℕ) (ranges : Slots) (infos : ℕ → Option ThreadInfo) where
  pub process_all-Serves :
      (ns : Namespace)
      → CanGather ns infos threads_max
      → length ns.worker_list < check_depth
      → length ns.worker_hlist < check_depth
      → (round : Round) × (process_all q now ranges ns infos ≡ ok round) × Serves ns infos round
  unfolding process_all
  process_all-Serves ns g short hshort =
      let (s, runs, d) = get_synchronized-Gathers q now ns infos ranges threads_max g in
      let finds =
        λ (v : ℕ). find-answer s.tree v d.tree d.disjoint (omega (arith, d.same_capacity)) in
      let (m, gets) = getmin-runs s.tree d.is_sorted in
      let same = ap (λ (n : Namespace). n.worker_list) d.frame in
      let hsame = ap (λ (n : Namespace). n.worker_hlist) d.frame in
      let f = answer s.tree in
      let served = λ (xs : List LrcuPtr). map ptr_call (select (λ x. not (f x.version)) xs) in
      let hserved = λ (xs : List PtrHead). map head_call (select (λ x. not (f x.version)) xs) in
      (
        record {
          ns = record s.ns {
            worker_list = select (λ x. f x.version) s.ns.worker_list;
            worker_hlist = select (λ x. f x.version) s.ns.worker_hlist;
            processed_version = processed m s.ns.version;
          };
          infos = s.infos;
          ranges = s.tree.r;
          calls = served s.ns.worker_list ++ hserved s.ns.worker_hlist;
        },
        rw runs (
            rw
              (process_lem (λ x. x.version) ptr_call s.tree f s.ns.worker_list (rw same short)
                finds)
              (rw
                (process_lem (λ x. x.version) head_call s.tree f s.ns.worker_hlist (rw hsame hshort)
                  finds)
                (rw gets refl))),
        record {
          blocked = f;
          kept = ap (select (λ (x : LrcuPtr). f x.version)) same;
          hkept = ap (select (λ (x : PtrHead). f x.version)) hsame;
          called = ap₂ (λ xs ys. served xs ++ hserved ys) same hsame;
          same_free = ap (λ (n : Namespace). n.free_list) d.frame;
          same_hfree = ap (λ (n : Namespace). n.free_hlist) d.frame;
          safe = λ v h. not-true (λ e. d.reaches v e) (answer-safe s.tree v h);
          serves = λ v w h a b. answer-exact s.tree v w (d.reaches w h) ∙ d.only v a b;
        },
      )
