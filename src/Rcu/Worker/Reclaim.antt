-- ===== src/Rcu/Worker/Reclaim.antt =====
-- A round of the worker from its splices to its calls: what becomes of the requests.
use light_rcu.Prelude.{
  ℕ, length, ◌<◌, lt→ltb, ◌≤◌, ◌≡◌, refl, sym, ◌∙◌, ap, ap₂, subst, Bool, true, false, not, ◌&&◌,
  Option, List, [], ◌∷◌, ◌++◌, map, ok, Bool-cases, inl, inr, arith, All, select, All-append,
}
use mathlib.Core.List.{append-nil}
use light_rcu.LinkedList.{check_depth}
use light_rcu.Qsort.{Qsort}
use light_rcu.Range.{Range, Slots}
use light_rcu.Spinlock.{Spinlock, spin_unlock}
use light_rcu.Spinlock.Word.{IsFree, taken, spin_lock-free, spin_unlock-IsFree}
use light_rcu.Rcu.State.{ThreadInfo, LrcuPtr, PtrHead, Namespace, Call}
use light_rcu.Rcu.Sync.{threads_max}
use light_rcu.Rcu.Sync.Covers.{lns_at, Readers}
use light_rcu.Rcu.Sync.Gathers.{CanGather}
use light_rcu.Rcu.Worker.{reclaim, collect, splice, Round, is_empty, ptr_call, head_call}
use light_rcu.Rcu.Sync.Grace.{Passed, All-Passed}
use light_rcu.Rcu.Worker.Grace.{Serves, process_all-Serves}

splice_lem :
    {A : Type 0} (l : Spinlock) (worker free : List A)
    → length (worker ++ free) < check_depth
    → IsFree l
    → (l' : Spinlock) × (splice l worker free ≡ ok (worker ++ free, l')) × IsFree l'
unfolding splice
splice_lem l worker [] short h = (l, ap (λ xs. ok (xs, l)) (sym (append-nil worker)), h)
splice_lem l worker (x ∷ xs) short h = (
  spin_unlock (taken l),
  rw (spin_lock-free l h, lt→ltb (length (worker ++ x ∷ xs)) check_depth short) refl,
  spin_unlock-IsFree l h,
)

-- Every request was made at a version up to `version`.
abbrev pub Made : ℕ → List LrcuPtr → Type 0
Made version xs = All (λ x. x.version ≤ version) xs

abbrev pub HeadsMade : ℕ → List PtrHead → Type 0
HeadsMade version xs = All (λ x. x.version ≤ version) xs

pub record CanReclaim (ns : Namespace) (infos : ℕ → Option ThreadInfo) : Type 0 where
  pub gather : CanGather ns infos threads_max
  pub list_free : IsFree ns.list_lock
  pub hlist_free : IsFree ns.list_hlock
  pub short : length (ns.worker_list ++ ns.free_list) < check_depth
  pub heads_short : length (ns.worker_hlist ++ ns.free_hlist) < check_depth
  pub made : Made ns.version (ns.worker_list ++ ns.free_list)
  pub heads_made : HeadsMade ns.version (ns.worker_hlist ++ ns.free_hlist)

-- The calls of a list: each is of a request that passed the test.
All-served :
    {A : Type 0} (version : A → ℕ) (call : A → Call) (f : ℕ → Bool) (P : ℕ → Type 0) (top : ℕ)
    (xs : List A)
    → ((x : A) → (call x).version ≡ version x)
    → ((v : ℕ) → f v ≡ false → v ≤ top → P v)
    → All (λ x. version x ≤ top) xs
    → All (λ c. P c.version) (map call (select (λ x. not (f (version x))) xs))
All-served version call f P top [] same safe made = tt
All-served version call f P top (x ∷ xs) same safe made =
    let rest = All-served version call f P top xs same safe made.1 in
    elim (Bool-cases (f (version x))) [
      | inl blocked ↦ rw blocked rest
      | inr free ↦ rw free (subst P (sym (same x)) (safe (version x) free made.0), rest)
    ]

-- What a round guarantees. The requests are those that the worker had, and behind them the new
-- ones; those at a blocked version stay, in their order, and each other one is called, in its order.
-- A call is for a version that all threads have passed.
pub record Reclaims (ns : Namespace) (infos : ℕ → Option ThreadInfo) (round : Round) : Type 0 where
  pub blocked : ℕ → Bool
  pub kept : round.ns.worker_list ≡ select (λ x. blocked x.version) (ns.worker_list ++ ns.free_list)
  pub hkept :
      round.ns.worker_hlist ≡ select (λ x. blocked x.version) (ns.worker_hlist ++ ns.free_hlist)
  pub called :
      round.calls
      ≡ map ptr_call (select (λ x. not (blocked x.version)) (ns.worker_list ++ ns.free_list))
        ++ map head_call (select (λ x. not (blocked x.version)) (ns.worker_hlist ++ ns.free_hlist))
  pub drained : round.ns.free_list ≡ []
  pub hdrained : round.ns.free_hlist ≡ []
  pub grace : All (λ c. All (λ p. Passed c.version (lns_at infos ns.id p)) ns.threads) round.calls

-- The calls of a round are for versions that all threads have passed.
Serves-grace :
    (ns : Namespace) (infos : ℕ → Option ThreadInfo) (round : Round)
    → Readers infos ns.id ns.version ns.threads
    → Made ns.version ns.worker_list
    → HeadsMade ns.version ns.worker_hlist
    → Serves ns infos round
    → All (λ c. All (λ p. Passed c.version (lns_at infos ns.id p)) ns.threads) round.calls
Serves-grace ns infos round readers made heads_made s =
    let P : ℕ → Type 0 = λ v. All (λ p. Passed v (lns_at infos ns.id p)) ns.threads in
    let safe = λ (v : ℕ) (f : s.blocked v ≡ false) (le : v ≤ ns.version).
      All-Passed infos ns.id ns.version v ns.threads readers le (s.safe v f) in
    let calls = map ptr_call (select (λ (x : LrcuPtr). not (s.blocked x.version)) ns.worker_list) in
    let hcalls =
      map head_call (select (λ (x : PtrHead). not (s.blocked x.version)) ns.worker_hlist) in
    subst (All (λ c. P c.version)) (sym s.called) (
      All-append (λ (c : Call). P c.version) calls hcalls
        (All-served (λ x. x.version) ptr_call s.blocked P ns.version ns.worker_list (λ x. refl) safe
          made)
        (All-served (λ x. x.version) head_call s.blocked P ns.version ns.worker_hlist (λ x. refl)
          safe heads_made))

module _ (q : Qsort Range) (now : ℕ → ℕ) (ranges : Slots) (ns : Namespace)
    (infos : ℕ → Option ThreadInfo) (h : CanReclaim ns infos) where
  abbrev collected : Spinlock → Spinlock → Namespace
  collected l hl = record ns {
    worker_list = ns.worker_list ++ ns.free_list;
    free_list = [];
    list_lock = l;
    worker_hlist = ns.worker_hlist ++ ns.free_hlist;
    free_hlist = [];
    list_hlock = hl;
  }

  collect_lem : (l hl : Spinlock) × (collect ns ≡ ok (collected l hl))
  unfolding collect
  collect_lem =
      let (l, e, _) = splice_lem ns.list_lock ns.worker_list ns.free_list h.short h.list_free in
      let (hl, e', _) =
        splice_lem ns.list_hlock ns.worker_hlist ns.free_hlist h.heads_short h.hlist_free in
      (l, hl, rw e (rw e' refl))

  can_gather : (l hl : Spinlock) → CanGather (collected l hl) infos threads_max
  can_gather l hl = record {
    lock_free = h.gather.lock_free;
    small = h.gather.small;
    readers = h.gather.readers;
    hung_readers = h.gather.hung_readers;
    fits = h.gather.fits;
  }

  none_left : {A : Type 0} (xs : List A) → is_empty xs ≡ true → xs ≡ []
  none_left [] e = refl
  none_left (x ∷ xs) e = cc

  -- Where no other thread runs meanwhile and `CanReclaim` holds (the locks are free, the version is
  -- below the greatest one, all threads have their information and entered their sections at a
  -- version up to the present one, the ranges fit, no request is from a later version, and there
  -- are fewer than 100000 requests of each kind), the
  -- part of a round that collects and serves requests ends normally. Each destructor that it calls
  -- is for a request made at a version that every thread in the namespace's `threads` has passed:
  -- the thread is in no read section, or in one that it entered at a later version. For some set of
  -- blocked versions, the requests at a blocked version are kept, all others are called, each in
  -- order, and the lists of new requests are empty.
  pub reclaim-Reclaims :
      (round : Round) × (reclaim q now ranges ns infos ≡ ok round) × Reclaims ns infos round
  unfolding reclaim
  reclaim-Reclaims =
      let (l, hl, e) = collect_lem in
      let ns' = collected l hl in
      elim (Bool-cases (is_empty ns'.worker_list && is_empty ns'.worker_hlist)) [
        | inl idle ↦
            let w = none_left ns'.worker_list (ground arith) in
            let hw = none_left ns'.worker_hlist (ground arith) in
            (
              record { ns = ns'; infos = infos; ranges = ranges; calls = [] },
              rw e (rw idle refl),
              record {
                blocked = λ v. true;
                kept = w ∙ ap (select (λ (x : LrcuPtr). true)) (sym w);
                hkept = hw ∙ ap (select (λ (x : PtrHead). true)) (sym hw);
                called =
                    ap₂
                      (λ xs ys.
                        map ptr_call (select (λ x. false) xs)
                        ++ map head_call (select (λ x. false) ys))
                      (sym w) (sym hw);
                drained = refl;
                hdrained = refl;
                grace = tt;
              },
            )
        | inr work ↦
            let (round, runs, s) =
              process_all-Serves q now ranges infos ns' (can_gather l hl) h.short h.heads_short in
            (
              round,
              rw e (rw work runs),
              record {
                blocked = s.blocked;
                kept = s.kept;
                hkept = s.hkept;
                called = s.called;
                drained = s.same_free;
                hdrained = s.same_hfree;
                grace = Serves-grace ns' infos round h.gather.readers h.made h.heads_made s;
              },
            )
      ]
