-- ===== src/Rcu/Interleave/Invariant.antt =====
-- What holds in every reachable state of the interleaved system.
use light_rcu.Prelude.{
  ℕ, ◌≤◌, ◌≡◌, refl, sym, subst, ◌∙◌, Bool, true, false, Bool-cases, inl, inr, Option, some, All,
  arith, ◌==◌, ==→eq, update,
}
use light_rcu.Rcu.Interleave.{
  Sys, Thread, Move, WriterPc, idle, bumped, written, calling, WorkerPc, resting, spliced, scanning,
  serving, request, AllSeen, include, assigning,
}
use light_rcu.Rcu.Interleave.Readers.{ThreadOk, ThreadOk-le, Move-keeps}
use light_rcu.Rcu.Interleave.Pending.{
  Removed, Guarded, Seen, Gone, Frame, Frame-same, Frame-Guarded, Frame-Guarded-All, Frame-Seen-All,
}

-- What a writer has in hand.
abbrev pub WriterOk : Sys → WriterPc → Type 0
WriterOk s idle = Unit
WriterOk s (bumped c new) = s.used new ≡ false
WriterOk s (written old) = Removed s old
WriterOk s (calling old v) = Guarded s (request old v)

-- The same of all writers, of which only the one with the lock is in an assignment.
abbrev pub WritersOk : Sys → Type 0
WritersOk s =
    ((i : ℕ) → WriterOk s (s.writers i))
    × ((i : ℕ) → assigning (s.writers i) ≡ true → s.owner ≡ some i)

-- What the worker knows of the requests in its list.
abbrev pub WorkerOk : ℕ → Sys → WorkerPc → Type 0
WorkerOk n s resting = Unit
WorkerOk n s spliced = Unit
WorkerOk n s (scanning current) = All (Seen s current) s.worker_list
WorkerOk n s (serving current kept) =
    All (Seen s current) s.worker_list × All (Guarded s) kept × AllSeen n s

pub record Inv (n : ℕ) (s : Sys) : Type 0 where
  pub threads_ok : (i : ℕ) → ThreadOk s.version (s.threads i)
  pub beyond : (i p : ℕ) → n ≤ i → (s.threads i).holds p ≡ false
  pub cells_used : (c : ℕ) → s.used (s.cells c) ≡ true
  pub distinct : (a b : ℕ) → s.cells a ≡ s.cells b → a ≡ b
  pub writers_ok : WritersOk s
  pub free_ok : All (Guarded s) s.free_list
  pub work_ok : All (Guarded s) s.worker_list
  pub worker_ok : WorkerOk n s s.worker
  pub called_ok : (p : ℕ) → s.called p ≡ true → Gone s p

module _ (n : ℕ) (s s' : Sys) (frame : (p : ℕ) → Removed s p → Frame s s' p) where
  pub Frame-WriterOk : (w : WriterPc) → s'.used ≡ s.used → WriterOk s w → WriterOk s' w
  Frame-WriterOk idle used h = tt
  Frame-WriterOk (bumped c new) used h = rw used h
  Frame-WriterOk (written old) used h = (frame old h).removed
  Frame-WriterOk (calling old v) used h = Frame-Guarded s s' frame (request old v) h

  pub Frame-WritersOk :
      s'.used ≡ s.used → s'.writers ≡ s.writers → s'.owner ≡ s.owner → WritersOk s → WritersOk s'
  Frame-WritersOk used writers owner h = (
    λ i.
        subst (λ (f : ℕ → WriterPc). WriterOk s' (f i)) (sym writers)
          (Frame-WriterOk (s.writers i) used (h.0 i)),
    λ i e.
        let e' = subst (λ (f : ℕ → WriterPc). assigning (f i) ≡ true) writers e in owner ∙ h.1 i e',
  )

  pub Frame-WorkerOk :
      (w : WorkerPc)
      → s'.seen_version ≡ s.seen_version
      → s'.seen_counter ≡ s.seen_counter
      → s'.worker_list ≡ s.worker_list
      → All (Guarded s) s.worker_list
      → WorkerOk n s w
      → WorkerOk n s' w
  Frame-WorkerOk resting versions counters list work h = tt
  Frame-WorkerOk spliced versions counters list work h = tt
  Frame-WorkerOk (scanning current) versions counters list work h =
      subst (All (Seen s' current)) (sym list)
        (Frame-Seen-All s s' frame current s.worker_list versions counters work h)
  Frame-WorkerOk (serving current kept) versions counters list work h = (
    subst (All (Seen s' current)) (sym list)
        (Frame-Seen-All s s' frame current s.worker_list versions counters work h.0),
    Frame-Guarded-All s s' frame kept h.1,
    λ i l.
        let (v, c, e, k) = h.2 i l in
        (
          v,
          c,
          subst (λ (f : ℕ → Option ℕ). f i ≡ some v) (sym versions) e,
          subst (λ (f : ℕ → Option ℕ). f i ≡ some c) (sym counters) k,
        ),
  )

module _ {n : ℕ} {s : Sys} (inv : Inv n s) where
  pub move-Frame :
      (i : ℕ) (t : Thread)
      → Move s.version s.cells (s.threads i) t
      → (p : ℕ) → Removed s p
      → Frame s (record s { threads = update s.threads i t }) p
  move-Frame i t m p r = record {
    version_le = omega arith;
    removed = record { off = r.off; was_used = r.was_used };
    holders = λ j h. elim (Bool-cases (j == i)) [
      | inl here ↦
          let e = ==→eq j i here in
          let (held, same) = Move-keeps p (inv.threads_ok i) r.off m (rw here at h) in
          rw here (rw e (held, same))
      | inr there ↦ (rw there at h, rw there refl)
    ];
  }

  pub assign-Frame :
      (i c new : ℕ)
      → s.writers i ≡ bumped c new
      → (p : ℕ) → Removed s p
      → Frame s
          (record s {
            cells = update s.cells c new;
            used = include new s.used;
            writers = update s.writers i (written (s.cells c));
          })
          p
  assign-Frame i c new e p r =
      let fresh : s.used new ≡ false = subst (WriterOk s) e (inv.writers_ok.0 i) in
      record {
        version_le = omega arith;
        removed = record {
          off = λ d. elim (Bool-cases (d == c)) [
            | inl here ↦ rw here (λ k.
                let u = r.was_used in let f = subst (λ (x : ℕ). s.used x ≡ false) k fresh in cc)
            | inr there ↦ rw there (r.off d)
          ];
          was_used = ground (arith, r.was_used);
        };
        holders = λ j h. (h, refl);
      }

  -- A step that leaves the readers and the pointers alone.
  pub same_Frame :
      (s' : Sys)
      → s.version ≤ s'.version
      → s'.cells ≡ s.cells
      → s'.used ≡ s.used
      → s'.threads ≡ s.threads
      → (p : ℕ) → Removed s p
      → Frame s s' p
  same_Frame s' le cells used threads p = Frame-same s s' p le cells used threads

  -- After such a step the invariant needs only what writers and the worker have changed.
  pub rest_Inv :
      (s' : Sys)
      → s.version ≤ s'.version
      → s'.cells ≡ s.cells
      → s'.used ≡ s.used
      → s'.threads ≡ s.threads
      → WritersOk s'
      → All (Guarded s') s'.free_list
      → All (Guarded s') s'.worker_list
      → WorkerOk n s' s'.worker
      → ((p : ℕ) → s'.called p ≡ true → Gone s' p)
      → Inv n s'
  rest_Inv s' le cells used threads writers_ok free_ok work_ok worker_ok called_ok = record {
    threads_ok = λ i.
        subst (λ (f : ℕ → Thread). ThreadOk s'.version (f i)) (sym threads)
          (ThreadOk-le s.version s'.version (s.threads i) le (inv.threads_ok i));
    beyond =
        λ i p l. subst (λ (f : ℕ → Thread). (f i).holds p ≡ false) (sym threads) (inv.beyond i p l);
    cells_used = λ c.
        subst (λ (f : ℕ → Bool). f (s'.cells c) ≡ true) (sym used)
          (subst (λ (f : ℕ → ℕ). s.used (f c) ≡ true) (sym cells) (inv.cells_used c));
    distinct = subst (λ (f : ℕ → ℕ). (a b : ℕ) → f a ≡ f b → a ≡ b) (sym cells) inv.distinct;
    writers_ok = writers_ok;
    free_ok = free_ok;
    work_ok = work_ok;
    worker_ok = worker_ok;
    called_ok = called_ok;
  }
