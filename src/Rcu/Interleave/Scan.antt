-- ===== src/Rcu/Interleave/Scan.antt =====
-- The worker keeps the invariant where it reads the threads and where it calls.
use light_rcu.Prelude.{
  ℕ, zero, suc, ◌≤◌, ◌<◌, ◌≡◌, refl, sym, subst, true, false, Bool-cases, inl, inr, some, List, [],
  ◌∷◌, All, arith, ◌==◌, ==→eq, ==→ne, ltb, ltb→lt, ltb→le, update,
}
use light_rcu.Rcu.State.{LrcuPtr}
use light_rcu.Rcu.Interleave.{Sys, scanning, serving, AllSeen, blocked, include}
use light_rcu.Rcu.Interleave.Pending.{
  Guarded, Seen, Gone, Frame-Guarded-All, Frame-Gone, Frame-Seen-All, All-mono,
}
use light_rcu.Rcu.Interleave.Invariant.{Inv, WorkerOk, Frame-WritersOk, rest_Inv}
use light_rcu.Rcu.Interleave.Steps.{worker_Inv, still}

All-zip {ℓ} :
    {A : Type ℓ} (P Q R : A → Type 0) (xs : List A)
    → ((x : A) → P x → Q x → R x)
    → All P xs
    → All Q xs
    → All R xs
All-zip P Q R [] f p q = tt
All-zip P Q R (x ∷ xs) f p q = (f x p.0 q.0, All-zip P Q R xs f p.1 q.1)

-- A thread whose copy is complete, and may use the version, blocks it.
blocked_of :
    (s : Sys) (current n i v c w : ℕ)
    → i < n
    → s.seen_version i ≡ some v
    → s.seen_counter i ≡ some c
    → v ≤ w
    → w ≤ current
    → 0 < c
    → blocked s current n w ≡ true
blocked_of s current zero i v c w l e k a b pos = absurd (omega arith)
blocked_of s current (suc n) i v c w l e k a b pos = elim (Bool-cases (i == n)) [
  | inl last ↦
      let same = ==→eq i n last in
      let e' = subst (λ (j : ℕ). s.seen_version j ≡ some v) same e in
      let k' = subst (λ (j : ℕ). s.seen_counter j ≡ some c) same k in rw (e', k') (ground arith)
  | inr before ↦
      let rest = blocked_of s current n i v c w (omega (arith, ==→ne i n before)) e k a b pos in
      ground arith
]

module _ {n : ℕ} {s : Sys} (inv : Inv n s) where
  pub scanning-Seen :
      (current : ℕ) → s.worker ≡ scanning current → All (Seen s current) s.worker_list
  scanning-Seen current e = subst (WorkerOk n s) e inv.worker_ok

  pub see_version_Inv :
      (i current : ℕ)
      → s.worker ≡ scanning current
      → Inv n (record s { seen_version = update s.seen_version i (some (s.threads i).lns.version) })
  see_version_Inv i current e =
      let vs = update s.seen_version i (some (s.threads i).lns.version) in
      let s' = record s { seen_version = vs } in
      worker_Inv inv s.worker s.free_list s.worker_list vs s.seen_counter inv.free_ok inv.work_ok (
        subst (WorkerOk n s') (sym e) (
          All-zip (Seen s current) (Guarded s) (Seen s' current) s.worker_list
            (λ q seen g. record {
              made = seen.made;
              versions = λ j v h k. elim (Bool-cases (j == i)) [
                | inl here ↦
                    let same = ==→eq j i here in
                    let held = g.holders j h in
                    let val : some (s.threads j).lns.version ≡ some v =
                      subst (λ (x : ℕ). some (s.threads x).lns.version ≡ some v) (sym same)
                        (rw here at k) in
                    ground arith
                | inr there ↦ seen.versions j v h (rw there at k)
              ];
              counters = seen.counters;
            })
            (scanning-Seen current e) inv.work_ok))

  pub see_counter_Inv :
      (i current : ℕ)
      → s.worker ≡ scanning current
      → Inv n (record s { seen_counter = update s.seen_counter i (some (s.threads i).lns.counter) })
  see_counter_Inv i current e =
      let cs = update s.seen_counter i (some (s.threads i).lns.counter) in
      let s' = record s { seen_counter = cs } in
      worker_Inv inv s.worker s.free_list s.worker_list s.seen_version cs inv.free_ok inv.work_ok (
        subst (WorkerOk n s') (sym e) (
          All-mono (Seen s current) (Seen s' current) s.worker_list
            (λ q seen. record {
              made = seen.made;
              versions = seen.versions;
              counters = λ j c h k. elim (Bool-cases (j == i)) [
                | inl here ↦
                    let same = ==→eq j i here in
                    let val : some (s.threads j).lns.counter ≡ some c =
                      subst (λ (x : ℕ). some (s.threads x).lns.counter ≡ some c) (sym same)
                        (rw here at k) in
                    let t = inv.threads_ok j in
                    let o = t.open_section in let w = t.holds_inside q.ptr h in ground arith
                | inr there ↦ seen.counters j c h (rw there at k)
              ];
            })
            (scanning-Seen current e)))

  -- What the worker knows while it serves.
  abbrev pub Serves : ℕ → List LrcuPtr → List LrcuPtr → Type 0
  Serves current kept work = All (Seen s current) work × All (Guarded s) kept × AllSeen n s

  pub serving_all :
      (current : ℕ) (kept : List LrcuPtr)
      → s.worker ≡ serving current kept
      → Serves current kept s.worker_list
  serving_all current kept e = subst (WorkerOk n s) e inv.worker_ok

  -- The object of a request that is not blocked is held by no thread.
  call-Gone :
      (current : ℕ) (x : LrcuPtr)
      → Guarded s x
      → Seen s current x
      → AllSeen n s
      → blocked s current n x.version ≡ false
      → Gone s x.ptr
  call-Gone current x g seen all free = record {
    removed = g.removed;
    unheld = λ i. elim (Bool-cases (ltb i n)) [
      | inr past ↦ inv.beyond i x.ptr (ltb→le i n past)
      | inl below ↦ elim (Bool-cases ((s.threads i).holds x.ptr)) [
        | inr not_held ↦ not_held
        | inl held ↦
            let (v, c, e, k) = all i (ltb→lt i n below) in
            let b =
              blocked_of s current n i v c x.version (ltb→lt i n below) e k
                (seen.versions i v held e) seen.made (seen.counters i c held k) in
            cc
      ]
    ];
  }

  pub call_Inv :
      (current : ℕ) (x : LrcuPtr) (xs kept : List LrcuPtr)
      → s.worker ≡ serving current kept
      → s.worker_list ≡ x ∷ xs
      → blocked s current n x.version ≡ false
      → Inv n (record s { worker_list = xs; called = include x.ptr s.called })
  call_Inv current x xs kept e list free =
      let s' = record s { worker_list = xs; called = include x.ptr s.called } in
      let f = still inv s' (omega arith) refl refl refl in
      let d = serving_all current kept e in
      let seen = subst (All (Seen s current)) list d.0 in
      let work = subst (All (Guarded s)) list inv.work_ok in
      let gone = call-Gone current x work.0 seen.0 d.2 free in
      rest_Inv inv s' (omega arith) refl refl refl
        (Frame-WritersOk n s s' f refl refl refl inv.writers_ok)
        (Frame-Guarded-All s s' f s.free_list inv.free_ok) (Frame-Guarded-All s s' f xs work.1)
        (subst (WorkerOk n s') (sym e) (
          Frame-Seen-All s s' f current xs refl refl work.1 seen.1,
          Frame-Guarded-All s s' f kept d.1,
          d.2,
        ))
        (λ p h. Frame-Gone s s' f p (elim (Bool-cases (p == x.ptr)) [
          | inl same ↦ subst (Gone s) (sym (==→eq p x.ptr same)) gone
          | inr other ↦ inv.called_ok p (rw other at h)
        ]))
