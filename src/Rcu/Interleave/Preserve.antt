-- ===== src/Rcu/Interleave/Preserve.antt =====
-- Each step keeps the invariant.
use light_rcu.Prelude.{
  ℕ, ◌+◌, ◌<◌, ◌≡◌, ◌≢◌, refl, sym, subst, false, true, Bool-cases, inl, inr, some, none, ◌∙◌, [],
  ◌∷◌, ◌++◌, All, All-append, arith, ◌==◌, ==→eq, ==→ne, update,
}
use light_rcu.Rcu.Interleave.{
  Sys, Thread, Move, WriterPc, idle, bumped, written, calling, resting, spliced, scanning, serving,
  request, include, assigning, Step, move, barrier, lock, unlock, bump, assign, take_version, add,
  pass_over, lose, splice, start, see_version, see_counter, decide, keep, call, finish,
}
use light_rcu.Rcu.Interleave.Readers.{Move-ThreadOk}
use light_rcu.Rcu.Interleave.Pending.{
  Removed, Guarded, Seen, Frame, Frame-Guarded, Frame-Guarded-All, Frame-Gone, All-mono,
}
use light_rcu.Rcu.Interleave.Invariant.{
  Inv, WriterOk, Frame-WritersOk, Frame-WorkerOk, move-Frame, assign-Frame,
}
use light_rcu.Rcu.Interleave.Steps.{writer_Inv, owner_Inv, worker_Inv, still}
use light_rcu.Rcu.Interleave.Scan.{
  see_version_Inv, see_counter_Inv, call_Inv, serving_all, scanning-Seen,
}

some-inj : {a b : ℕ} → some a ≡ some b → a ≡ b
some-inj e = cc

-- What a writer has that is in no assignment, if other pointers are published.
settled_WriterOk :
    (s s' : Sys) (frame : (p : ℕ) → Removed s p → Frame s s' p) (w : WriterPc)
    → assigning w ≡ false
    → WriterOk s w
    → WriterOk s' w
settled_WriterOk s s' frame idle e h = tt
settled_WriterOk s s' frame (bumped c new) e h = absurd (ground arith)
settled_WriterOk s s' frame (written old) e h = (frame old h).removed
settled_WriterOk s s' frame (calling old v) e h = Frame-Guarded s s' frame (request old v) h

module _ {n : ℕ} {s : Sys} (inv : Inv n s) where
  move_Inv :
      (i : ℕ) (t : Thread)
      → i < n
      → Move s.version s.cells (s.threads i) t
      → Inv n (record s { threads = update s.threads i t })
  move_Inv i t below m =
      let s' = record s { threads = update s.threads i t } in
      let f = move-Frame inv i t m in
      record {
        threads_ok = λ j. elim (Bool-cases (j == i)) [
          | inl same ↦ rw same (Move-ThreadOk (inv.threads_ok i) m)
          | inr other ↦ rw other (inv.threads_ok j)
        ];
        beyond =
            λ j p l. let other : (j == i) ≡ false = ground arith in rw other (inv.beyond j p l);
        cells_used = inv.cells_used;
        distinct = inv.distinct;
        writers_ok = Frame-WritersOk n s s' f refl refl refl inv.writers_ok;
        free_ok = Frame-Guarded-All s s' f s.free_list inv.free_ok;
        work_ok = Frame-Guarded-All s s' f s.worker_list inv.work_ok;
        worker_ok = Frame-WorkerOk n s s' f s.worker refl refl refl inv.work_ok inv.worker_ok;
        called_ok = λ p h. Frame-Gone s s' f p (inv.called_ok p h);
      }

  assign_Inv :
      (i c new : ℕ)
      → s.writers i ≡ bumped c new
      → Inv n (record s {
        cells = update s.cells c new;
        used = include new s.used;
        writers = update s.writers i (written (s.cells c));
      })
  assign_Inv i c new e =
      let s' = record s {
        cells = update s.cells c new;
        used = include new s.used;
        writers = update s.writers i (written (s.cells c));
      } in
      let f = assign-Frame inv i c new e in
      let fresh : s.used new ≡ false = subst (WriterOk s) e (inv.writers_ok.0 i) in
      let mine : s.owner ≡ some i = inv.writers_ok.1 i (rw e refl) in
      let not_mine : (j : ℕ) → (j == i) ≡ false → assigning (s.writers j) ≡ false = λ j other.
        elim (Bool-cases (assigning (s.writers j))) [
          | inl busy ↦ absurd (==→ne j i other (some-inj (sym (inv.writers_ok.1 j busy) ∙ mine)))
          | inr settled ↦ settled
        ] in
      let unused : (d : ℕ) → new ≢ s.cells d = λ d k.
        let u = inv.cells_used d in let g = subst (λ (x : ℕ). s.used x ≡ false) k fresh in cc in
      record {
        threads_ok = inv.threads_ok;
        beyond = inv.beyond;
        cells_used = λ d. elim (Bool-cases (d == c)) [
          | inl same ↦ rw same (ground arith)
          | inr other ↦ rw other (ground (arith, inv.cells_used d))
        ];
        distinct = λ a b h. elim (Bool-cases (a == c)) [
          | inl a_is ↦ elim (Bool-cases (b == c)) [
            | inl b_is ↦ omega (arith, ==→eq a c a_is, ==→eq b c b_is)
            | inr b_not ↦ absurd (unused b (rw (a_is, b_not) at h))
          ]
          | inr a_not ↦ elim (Bool-cases (b == c)) [
            | inl b_is ↦ absurd (unused a (sym (rw (a_not, b_is) at h)))
            | inr b_not ↦ inv.distinct a b (rw (a_not, b_not) at h)
          ]
        ];
        writers_ok = (
          λ j. elim (Bool-cases (j == i)) [
            | inl here ↦ rw here record {
              off = λ d. elim (Bool-cases (d == c)) [
                | inl same ↦ rw same (unused c)
                | inr other ↦ rw other (λ k. ==→ne d c other (inv.distinct d c k))
              ];
              was_used = ground (arith, inv.cells_used c);
            }
            | inr there ↦
                rw there
                  (settled_WriterOk s s' f (s.writers j) (not_mine j there) (inv.writers_ok.0 j))
          ],
          λ j k. elim (Bool-cases (j == i)) [
            | inl here ↦ let k' = rw here at k in cc
            | inr there ↦ inv.writers_ok.1 j (rw there at k)
          ],
        );
        free_ok = Frame-Guarded-All s s' f s.free_list inv.free_ok;
        work_ok = Frame-Guarded-All s s' f s.worker_list inv.work_ok;
        worker_ok = Frame-WorkerOk n s s' f s.worker refl refl refl inv.work_ok inv.worker_ok;
        called_ok = λ p h. Frame-Gone s s' f p (inv.called_ok p h);
      }

  -- A writer that hands nothing over.
  idle_Inv : (i : ℕ) → Inv n (record s { writers = update s.writers i idle })
  idle_Inv i =
      let s' = record s { writers = update s.writers i idle } in
      let f = still inv s' (omega arith) refl refl refl in
      writer_Inv inv i s.version idle s.free_list (omega arith)
        (tt, Frame-Guarded-All s s' f s.free_list inv.free_ok, λ k. cc)

-- Every step keeps the invariant.
pub Step-Inv : {n : ℕ} {s t : Sys} → Inv n s → Step n s t → Inv n t
Step-Inv inv (move i t below m) = move_Inv inv i t below m
Step-Inv {s} inv barrier = owner_Inv inv (s.version + 1) s.owner (omega arith) inv.writers_ok.1
Step-Inv {s} inv (lock i e) =
    owner_Inv inv s.version (some i) (omega arith) (λ j k. let o = inv.writers_ok.1 j k in cc)
Step-Inv {s} inv (unlock i e settled) = owner_Inv inv s.version none (omega arith) (λ j k.
    let same = some-inj (sym e ∙ inv.writers_ok.1 j k) in
    let k' = subst (λ (x : ℕ). assigning (s.writers x) ≡ true) (sym same) k in cc)
Step-Inv {s} inv (bump i c new e mine fresh) =
    let s' = record s { version = s.version + 1; writers = update s.writers i (bumped c new) } in
    let f = still inv s' (omega arith) refl refl refl in
    writer_Inv inv i (s.version + 1) (bumped c new) s.free_list (omega arith)
      (fresh, Frame-Guarded-All s s' f s.free_list inv.free_ok, λ k. mine)
Step-Inv inv (assign i c new e) = assign_Inv inv i c new e
Step-Inv {s} inv (take_version i old e) =
    let s' = record s { writers = update s.writers i (calling old s.version) } in
    let f = still inv s' (omega arith) refl refl refl in
    let r : Removed s old = subst (WriterOk s) e (inv.writers_ok.0 i) in
    writer_Inv inv i s.version (calling old s.version) s.free_list (omega arith) (
      record {
        removed = (f old r).removed;
        made = omega arith;
        holders = λ j h. (inv.threads_ok j).entered_at;
      },
      Frame-Guarded-All s s' f s.free_list inv.free_ok,
      λ k. cc,
    )
Step-Inv {s} inv (add i old v e) =
    let s' = record s {
      free_list = request old v ∷ s.free_list;
      writers = update s.writers i idle;
    } in
    let f = still inv s' (omega arith) refl refl refl in
    let g : Guarded s (request old v) = subst (WriterOk s) e (inv.writers_ok.0 i) in
    writer_Inv inv i s.version idle (request old v ∷ s.free_list) (omega arith) (
      tt,
      (Frame-Guarded s s' f (request old v) g, Frame-Guarded-All s s' f s.free_list inv.free_ok),
      λ k. cc,
    )
Step-Inv inv (pass_over i old e) = idle_Inv inv i
Step-Inv inv (lose i old v e) = idle_Inv inv i
Step-Inv {s} inv (splice e) =
    worker_Inv inv spliced [] (s.worker_list ++ s.free_list) s.seen_version s.seen_counter tt
      (All-append (Guarded s) s.worker_list s.free_list inv.work_ok inv.free_ok) tt
Step-Inv {s} inv (start e) =
    let s' = record s {
      worker = scanning s.version;
      seen_version = λ i. none;
      seen_counter = λ i. none;
    } in
    worker_Inv inv (scanning s.version) s.free_list s.worker_list (λ i. none) (λ i. none)
      inv.free_ok inv.work_ok
      (All-mono (Guarded s) (Seen s' s.version) s.worker_list
        (λ q g. record { made = g.made; versions = λ i v h k. cc; counters = λ i c h k. cc })
        inv.work_ok)
Step-Inv inv (see_version i current e) = see_version_Inv inv i current e
Step-Inv inv (see_counter i current e) = see_counter_Inv inv i current e
Step-Inv {s} inv (decide current e all) =
    let s' = record s { worker = serving current [] } in
    worker_Inv inv (serving current []) s.free_list s.worker_list s.seen_version s.seen_counter
      inv.free_ok inv.work_ok
      (
        All-mono (Seen s current) (Seen s' current) s.worker_list
            (λ q seen. record {
              made = seen.made;
              versions = seen.versions;
              counters = seen.counters;
            })
            (scanning-Seen inv current e),
        tt,
        all,
      )
Step-Inv {s} inv (keep current x xs kept e list) =
    let s' = record s { worker_list = xs; worker = serving current (kept ++ x ∷ []) } in
    let f = still inv s' (omega arith) refl refl refl in
    let d = serving_all inv current kept e in
    let seen = subst (All (Seen s current)) list d.0 in
    let work = subst (All (Guarded s)) list inv.work_ok in
    worker_Inv inv (serving current (kept ++ x ∷ [])) s.free_list xs s.seen_version s.seen_counter
      inv.free_ok work.1
      (
        All-mono (Seen s current) (Seen s' current) xs
            (λ q seen. record {
              made = seen.made;
              versions = seen.versions;
              counters = seen.counters;
            })
            seen.1,
        Frame-Guarded-All s s' f (kept ++ x ∷ [])
            (All-append (Guarded s) kept (x ∷ []) d.1 (work.0, tt)),
        d.2,
      )
Step-Inv inv (call current x xs kept e list free) = call_Inv inv current x xs kept e list free
Step-Inv {s} inv (finish current kept e list) =
    let d = serving_all inv current kept e in
    worker_Inv inv resting s.free_list kept s.seen_version s.seen_counter inv.free_ok d.1 tt
