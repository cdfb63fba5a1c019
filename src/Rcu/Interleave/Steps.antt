-- ===== src/Rcu/Interleave/Steps.antt =====
-- Every step of a writer, and of the worker where it copies or sorts, keeps the invariant.
use light_rcu.Prelude.{
  ℕ, ◌≤◌, ◌≡◌, refl, sym, subst, Bool, true, Bool-cases, inl, inr, Option, some, List, All, arith,
  ◌==◌, ==→eq, update,
}
use light_rcu.Rcu.State.{LrcuPtr}
use light_rcu.Rcu.Interleave.{Sys, WriterPc, WorkerPc, assigning}
use light_rcu.Rcu.Interleave.Pending.{Removed, Guarded, Gone, Frame, Frame-Guarded-All, Frame-Gone}
use light_rcu.Rcu.Interleave.Invariant.{
  Inv, WriterOk, WorkerOk, Frame-WriterOk, Frame-WritersOk, Frame-WorkerOk, same_Frame, rest_Inv,
}

module _ {n : ℕ} {s : Sys} (inv : Inv n s) where
  -- The steps of writers, and those of the worker that copy and sort: the readers and the pointers
  -- stay as they are.
  quiet :
      (s' : Sys)
      → s.version ≤ s'.version
      → s'.cells ≡ s.cells
      → s'.used ≡ s.used
      → s'.threads ≡ s.threads
      → s'.called ≡ s.called
      → (p : ℕ) → s'.called p ≡ true
      → Gone s' p
  quiet s' le cells used threads called p h =
      Frame-Gone s s' (same_Frame inv s' le cells used threads) p
        (inv.called_ok p (subst (λ (f : ℕ → Bool). f p ≡ true) called h))

  -- A step of a writer.
  pub writer_Inv :
      (i v : ℕ) (w : WriterPc) (free : List LrcuPtr)
      → s.version ≤ v
      → (let s' = record s { version = v; writers = update s.writers i w; free_list = free } in
          WriterOk s' w × All (Guarded s') free × (assigning w ≡ true → s.owner ≡ some i))
      → Inv n (record s { version = v; writers = update s.writers i w; free_list = free })
  writer_Inv i v w free le h =
      let s' = record s { version = v; writers = update s.writers i w; free_list = free } in
      let f = same_Frame inv s' le refl refl refl in
      rest_Inv inv s' le refl refl refl
        (
          λ j. elim (Bool-cases (j == i)) [
            | inl here ↦ rw here h.0
            | inr there ↦ rw there (Frame-WriterOk n s s' f (s.writers j) refl (inv.writers_ok.0 j))
          ],
          λ j e. elim (Bool-cases (j == i)) [
            | inl here ↦
                subst (λ (x : ℕ). s.owner ≡ some x) (sym (==→eq j i here)) (h.2 (rw here at e))
            | inr there ↦ inv.writers_ok.1 j (rw there at e)
          ],
        )
        h.1 (Frame-Guarded-All s s' f s.worker_list inv.work_ok)
        (Frame-WorkerOk n s s' f s.worker refl refl refl inv.work_ok inv.worker_ok)
        (quiet s' le refl refl refl refl)

  -- A step that raises the version, or takes or leaves the lock.
  pub owner_Inv :
      (v : ℕ) (o : Option ℕ)
      → s.version ≤ v
      → ((i : ℕ) → assigning (s.writers i) ≡ true → o ≡ some i)
      → Inv n (record s { version = v; owner = o })
  owner_Inv v o le h =
      let s' = record s { version = v; owner = o } in
      let f = same_Frame inv s' le refl refl refl in
      rest_Inv inv s' le refl refl refl
        (λ i. Frame-WriterOk n s s' f (s.writers i) refl (inv.writers_ok.0 i), h)
        (Frame-Guarded-All s s' f s.free_list inv.free_ok)
        (Frame-Guarded-All s s' f s.worker_list inv.work_ok)
        (Frame-WorkerOk n s s' f s.worker refl refl refl inv.work_ok inv.worker_ok)
        (quiet s' le refl refl refl refl)

  -- A step of the worker that calls nothing.
  pub worker_Inv :
      (w : WorkerPc) (free work : List LrcuPtr) (vs cs : ℕ → Option ℕ)
      → All (Guarded s) free
      → All (Guarded s) work
      → (let s' = record s {
        worker = w;
        free_list = free;
        worker_list = work;
        seen_version = vs;
        seen_counter = cs;
      } in
          WorkerOk n s' w)
      → Inv n (record s {
        worker = w;
        free_list = free;
        worker_list = work;
        seen_version = vs;
        seen_counter = cs;
      })
  worker_Inv w free work vs cs free_ok work_ok h =
      let s' = record s {
        worker = w;
        free_list = free;
        worker_list = work;
        seen_version = vs;
        seen_counter = cs;
      } in
      let f = same_Frame inv s' (omega arith) refl refl refl in
      rest_Inv inv s' (omega arith) refl refl refl
        (Frame-WritersOk n s s' f refl refl refl inv.writers_ok)
        (Frame-Guarded-All s s' f free free_ok) (Frame-Guarded-All s s' f work work_ok) h
        (quiet s' (omega arith) refl refl refl refl)

  -- The frame of a step that leaves the readers and the pointers alone, as the steps below use it.
  abbrev pub still :
      (s' : Sys)
      → s.version ≤ s'.version
      → s'.cells ≡ s.cells
      → s'.used ≡ s.used
      → s'.threads ≡ s.threads
      → (p : ℕ) → Removed s p
      → Frame s s' p
  still = same_Frame inv
