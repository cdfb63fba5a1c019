-- ===== src/Rcu/Interleave/Safety.antt =====
-- No object is destroyed while a reader holds it, in any order of the steps.
use light_rcu.Prelude.{ℕ, ◌≤◌, ◌≡◌, ◌≢◌, sym, subst, true, false, inl, ◌++◌, All, All-append}
use light_rcu.Rcu.Interleave.{Sys, WriterPc, assigning, inside, Start, Reach, here, later}
use light_rcu.Rcu.Interleave.Pending.{Guarded, All-mono}
use light_rcu.Rcu.Interleave.Invariant.{Inv, WriterOk, WorkerOk}
use light_rcu.Rcu.Interleave.Preserve.{Step-Inv}

Start-Inv : (n : ℕ) (s : Sys) → Start s → Inv n s
Start-Inv n s h = record {
  threads_ok = λ i. record {
    entered_at = h.versions i;
    loaded_at = λ v e. let o = h.all_out i in cc;
    open_section = inl (h.all_out i);
    holds_inside = λ p e. let o = h.none_held i p in cc;
  };
  beyond = λ i p l. h.none_held i p;
  cells_used = h.cells_used;
  distinct = h.distinct;
  writers_ok = (
    λ i. subst (WriterOk s) (sym (h.writers_idle i)) tt,
    λ i e. let k = subst (λ (w : WriterPc). assigning w ≡ true) (h.writers_idle i) e in cc,
  );
  free_ok = subst (All (Guarded s)) (sym h.no_free) tt;
  work_ok = subst (All (Guarded s)) (sym h.no_work) tt;
  worker_ok = subst (WorkerOk n s) (sym h.worker_rests) tt;
  called_ok = λ p e. let o = h.none_called p in cc;
}

pub Reach-Inv : {n : ℕ} {s : Sys} → Reach n s → Inv n s
Reach-Inv {n} {s} (here h) = Start-Inv n s h
Reach-Inv (later r st) = Step-Inv (Reach-Inv r) st

-- In a system in which `ns->version++` is one step, also that of the worker, the version does not wrap
-- and the worker takes no thread to hang: in every state that is reached from a start by interleaved
-- steps of readers, writers and the worker, an object whose destructor was called is held by no thread
-- and is in no protected pointer.
pub Reach-Gone :
    {n : ℕ} {s : Sys}
    → Reach n s
    → (p : ℕ) → s.called p ≡ true
    → ((i : ℕ) → (s.threads i).holds p ≡ false) × ((c : ℕ) → s.cells c ≢ p)
Reach-Gone r p h = let g = (Reach-Inv r).called_ok p h in (g.unheld, g.removed.off)

-- In every state that is reached from a start a thread that holds an object for which a request waits is in a read section, which
-- it entered at a version up to that of the request.
pub Reach-Guarded :
    {n : ℕ} {s : Sys}
    → Reach n s
    → All
        (λ q.
          (i : ℕ)
          → (s.threads i).holds q.ptr ≡ true
          → ((s.threads i).pc ≡ inside) × ((s.threads i).lns.version ≤ q.version))
        (s.free_list ++ s.worker_list)
Reach-Guarded {s} r =
    let inv = Reach-Inv r in
    All-mono (Guarded s) _ (s.free_list ++ s.worker_list)
      (λ q g i h. ((inv.threads_ok i).holds_inside q.ptr h, g.holders i h))
      (All-append (Guarded s) s.free_list s.worker_list inv.free_ok inv.work_ok)
