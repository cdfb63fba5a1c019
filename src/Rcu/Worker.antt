-- ===== src/Rcu/Worker.antt =====
-- src/lrcu.c: one round of `lrcu_worker` for a namespace, and `lrcu_ns_destructor`. A destructor
-- call is recorded; what the destructor itself does is outside the model.
pub mod Grace
pub mod Reclaim
pub mod Stale
use light_rcu.Prelude.{
  ℕ, zero, suc, ◌+◌, ◌%◌, Bool, true, false, not, ◌&&◌, ◌||◌, Option, none, some, List, [], ◌∷◌,
  ◌++◌, map, ltb, leb, ◌==◌, if◌then◌else◌, update, Run, ok, ◌>>=◌, ◌>>◌,
}
use light_rcu.Qsort.{Qsort}
use light_rcu.Range.{Range, Slots, RangeTree, tree_init, find, getmin, u64_mod}
use light_rcu.Spinlock.{Spinlock, spin_lock, spin_unlock}
use light_rcu.Rcu.State.{
  LocalNs, ThreadInfo, LrcuPtr, PtrHead, Namespace, Handler, Call, World, check_list,
}
use light_rcu.Rcu.Sync.{present, get_synchronized, Synchronized, threads_max}

-- `lrcu_list_empty`
abbrev pub is_empty {ℓ} : {A : Type ℓ} → List A → Bool
is_empty [] = true
is_empty (x ∷ xs) = false

-- `lrcu_list_splice(&worker, &free)` behind its test, under the list's lock: the requests go behind
-- those that the worker has. It returns the worker's list and the lock; the free list is then empty. Of
-- its checks that of the whole list is the last, and the others hold where it holds.
unfoldable pub splice : {A : Type 0} → Spinlock → List A → List A → Run (List A × Spinlock)
splice l worker free =
    if is_empty free
    then ok (worker, l)
    else (do l' ← spin_lock l; check_list (worker ++ free); ok (worker ++ free, spin_unlock l'))

-- The rounds over `worker_list` or `worker_hlist`: a request whose version is in the tree stays, and
-- any other is called and taken off. They return those that stay, and the calls in their order. The
-- checks of `lrcu_list_unlink_next` are of lists that are shorter than the one at the start.
unfoldable pub process_rounds :
    {A : Type 0} → (A → ℕ) → (A → Call) → RangeTree → List A → Run (List A × List Call)
process_rounds version call tree [] = ok ([], [])
process_rounds version call tree (x ∷ xs) = do
  found ← find tree (version x)
  (kept, calls) ← process_rounds version call tree xs
  ok (if found then (x ∷ kept, calls) else (kept, call x ∷ calls))

-- The loop, which checks the list before its first round.
unfoldable pub process :
    {A : Type 0} → (A → ℕ) → (A → Call) → RangeTree → List A → Run (List A × List Call)
unfolding process_rounds
process version call tree xs = do check_list xs; process_rounds version call tree xs

-- `ptr->deinit(ptr->ptr)` and `h->func(h)`
abbrev pub ptr_call : LrcuPtr → Call
ptr_call x = record { func = x.deinit; arg = x.ptr; version = x.version }

abbrev pub head_call : PtrHead → Call
head_call x = record { func = x.func; arg = x.address; version = x.version }

-- What a round leaves: the namespace, the threads, the array of ranges, and the calls it made.
pub record Round : Type 0 where
  pub ns : Namespace
  pub infos : ℕ → Option ThreadInfo
  pub ranges : Slots
  pub calls : List Call

-- The splices.
unfoldable pub collect : Namespace → Run Namespace
collect ns = do
  (worker, l) ← splice ns.list_lock ns.worker_list ns.free_list
  (hworker, hl) ← splice ns.list_hlock ns.worker_hlist ns.free_hlist
  ok (record ns {
    worker_list = worker;
    free_list = [];
    list_lock = l;
    worker_hlist = hworker;
    free_hlist = [];
    list_hlock = hl;
  })

-- `ns->processed_version = min; if(ns->processed_version == 0) … = ns->version + 1;`
unfoldable pub processed : ℕ → ℕ → ℕ
processed min version = if min == 0 then (version + 1) % u64_mod else min

module _ (q : Qsort Range) (now : ℕ → ℕ) where
  -- The part of a round that calls destructors. `ranges` is the worker's array, which is never
  -- cleared, and of which `rbt` is made anew.
  unfoldable pub process_all : Slots → Namespace → (ℕ → Option ThreadInfo) → Run Round
  process_all ranges ns infos = do
    s ← get_synchronized q now ns infos (tree_init ranges threads_max)
    (kept, calls) ← process (λ x. x.version) ptr_call s.tree s.ns.worker_list
    (hkept, hcalls) ← process (λ x. x.version) head_call s.tree s.ns.worker_hlist
    min ← getmin s.tree
    ok (record {
      ns = record s.ns {
        worker_list = kept;
        worker_hlist = hkept;
        processed_version = processed min s.ns.version;
      };
      infos = s.infos;
      ranges = s.tree.r;
      calls = calls ++ hcalls;
    })

  unfoldable pub reclaim : Slots → Namespace → (ℕ → Option ThreadInfo) → Run Round
  unfolding collect
  reclaim ranges ns infos = do
    ns' ← collect ns
    if is_empty ns'.worker_list && is_empty ns'.worker_hlist
        then ok (record { ns = ns'; infos = infos; ranges = ranges; calls = [] })
        else process_all ranges ns' infos

-- `lrcu_ns_destructor`: the threads that stay; the others are not seen in a section of this version.
unfoldable pub keep_threads : Bool → ℕ → ℕ → (ℕ → Option ThreadInfo) → List ℕ → Run (List ℕ)
keep_threads forced ns_id version infos [] = ok []
keep_threads true ns_id version infos (p ∷ ps) = keep_threads true ns_id version infos ps
keep_threads false ns_id version infos (p ∷ ps) = do
  ti ← present (infos p)
  kept ← keep_threads false ns_id version infos ps
  ok (
      if ((ti.lns ns_id).counter == 0) && leb version (ti.lns ns_id).version
      then kept
      else p ∷ kept)

-- The namespace that is left, or `none` if it was freed.
unfoldable pub ns_destructor : Namespace → Bool → (ℕ → Option ThreadInfo) → Run (Option Namespace)
unfolding keep_threads
ns_destructor ns forced infos = do
  l ← spin_lock ns.threads_lock
  check_list ns.threads
  threads ← keep_threads forced ns.id ns.version infos ns.threads
  let ns' = record ns { threads = threads; threads_lock = spin_unlock l }
  ok (if is_empty threads then none else some ns')
