-- ===== src/Rcu/Interleave/Serve.antt =====
-- src/lrcu.c: the visits of the threads and the loop over the requests, in a round of `lrcu_worker`, as
-- steps of the interleaved system.
use light_rcu.Prelude.{
  ℕ, zero, suc, ◌<◌, ◌≡◌, refl, sym, ap, subst, Bool, true, false, not, Bool-cases, inl, inr,
  Option, some, none, List, [], ◌∷◌, ◌++◌, map, All, select, arith, ◌==◌, ==→eq, ==→ne, update,
}
use mathlib.Core.List.{append-nil, append_assoc}
use light_rcu.Rcu.State.{LocalNs, LrcuPtr, Call}
use light_rcu.Rcu.Sync.Covers.{may_hold}
use light_rcu.Rcu.Sync.Grace.{Passed}
use light_rcu.Rcu.Worker.{ptr_call}
use light_rcu.Rcu.Interleave.{
  Sys, scanning, serving, include, blocked, see_version, see_counter, keep, call,
}
use light_rcu.Rcu.Interleave.Replace.{Steps, go, shorten}

-- The objects that were destroyed, after the calls.
abbrev pub destroy : List Call → (ℕ → Bool) → ℕ → Bool
destroy [] called = called
destroy (c ∷ cs) called = destroy cs (include c.arg called)

destroy-keeps :
    (cs : List Call) (called : ℕ → Bool) (p : ℕ) → called p ≡ true → destroy cs called p ≡ true
destroy-keeps [] called p e = e
destroy-keeps (c ∷ cs) called p e =
    destroy-keeps cs (include c.arg called) p
      (elim (Bool-cases (p == c.arg)) [ inl same ↦ rw same refl | inr other ↦ rw other e ])

pub All-destroy :
    (P : ℕ → Type 0) (cs : List Call) (called : ℕ → Bool)
    → ((p : ℕ) → destroy cs called p ≡ true → P p)
    → All (λ c. P c.arg) cs
All-destroy P [] called h = tt
All-destroy P (c ∷ cs) called h = (
  h c.arg (
      destroy-keeps cs (include c.arg called) c.arg
        (let self : (c.arg == c.arg) ≡ true = ground arith in rw self refl)),
  All-destroy P cs (include c.arg called) h,
)

pub map-append : (xs ys : List LrcuPtr) → map shorten xs ++ map shorten ys ≡ map shorten (xs ++ ys)
map-append [] ys = refl
map-append (x ∷ xs) ys = ap (λ r. shorten x ∷ r) (map-append xs ys)

-- A thread that has passed the version does not hold it.
Passed-free :
    (current v : ℕ) (l : LocalNs) → Passed v (some l) → may_hold current (some l) v ≡ false
Passed-free current v l (inl idle) = rw idle refl
Passed-free current v l (inr after) = ground (arith, after)

-- The worker has copied `lns` of each of the first `n` threads.
abbrev pub Copied : ℕ → Sys → (ℕ → Option ℕ) → (ℕ → Option ℕ) → Type 0
Copied n y vs cs =
    (i : ℕ)
    → i < n
    → (vs i ≡ some (y.threads i).lns.version) × (cs i ≡ some (y.threads i).lns.counter)

unblocked :
    (s : Sys) (current n v : ℕ)
    → Copied n s s.seen_version s.seen_counter
    → ((i : ℕ) → i < n → Passed v (some (s.threads i).lns))
    → blocked s current n v ≡ false
unblocked s current zero v copies passed = refl
unblocked s current (suc n) v copies passed =
    let (e, k) = copies n (omega arith) in
    let rest =
      unblocked s current n v (λ i l. copies i (omega arith)) (λ i l. passed i (omega arith)) in
    let free = Passed-free current v (s.threads n).lns (passed n (omega arith)) in
    rw (e, k) (rw free rest)

-- The visits of the first `k` threads.
module _ (n : ℕ) (y0 y : Sys) (current : ℕ) where
  abbrev seen : (ℕ → Option ℕ) → (ℕ → Option ℕ) → Sys
  seen vs cs = record y { worker = scanning current; seen_version = vs; seen_counter = cs }

  pub see_all :
      (k : ℕ)
      → Steps n y0 (seen (λ i. none) (λ i. none))
      → (vs : ℕ → Option ℕ) × (cs : ℕ → Option ℕ) × Steps n y0 (seen vs cs) × Copied k y vs cs
  see_all zero r = (λ i. none, λ i. none, r, λ i l. absurd (omega arith))
  see_all (suc k) r =
      let (vs, cs, more, copies) = see_all k r in
      let r1 = go more (see_version k current refl) in
      let r2 = go r1 (see_counter k current refl) in
      (
        update vs k (some (y.threads k).lns.version),
        update cs k (some (y.threads k).lns.counter),
        r2,
        λ i l. elim (Bool-cases (i == k)) [
          | inl here ↦ rw here (rw (==→eq i k here) (refl, refl))
          | inr there ↦ rw there (copies i (omega (arith, ==→ne i k there)))
        ],
      )

-- The loop over the requests, of which those of the versions `f` stay.
module _ (n : ℕ) (y0 y : Sys) (current : ℕ) (f : ℕ → Bool)
    (copies : Copied n y y.seen_version y.seen_counter) where
  abbrev pub at : List LrcuPtr → List LrcuPtr → (ℕ → Bool) → Sys
  at work kept called = record y {
    worker_list = work;
    worker = serving current kept;
    called = called;
  }

  abbrev stays : List LrcuPtr → List LrcuPtr
  stays xs = select (λ x. f x.version) xs

  abbrev goes : List LrcuPtr → List LrcuPtr
  goes xs = select (λ x. not (f x.version)) xs

  pub serve_work :
      (xs kept : List LrcuPtr) (called : ℕ → Bool)
      → All
          (λ c. (i : ℕ) → i < n → Passed c.version (some (y.threads i).lns))
          (map ptr_call (goes xs))
      → Steps n y0 (at (map shorten xs) kept called)
      → Steps n y0
          (at [] (kept ++ map shorten (stays xs)) (destroy (map ptr_call (goes xs)) called))
  serve_work [] kept called passed r =
      subst (λ (k : List LrcuPtr). Steps n y0 (at [] k called)) (sym (append-nil kept)) r
  serve_work (x ∷ xs) kept called passed r = elim (Bool-cases (f x.version)) [
    | inl some_f ↦
        let next = go r (keep current (shorten x) (map shorten xs) kept refl refl) in
        let rest = serve_work xs (kept ++ shorten x ∷ []) called (rw some_f at passed) next in
        rw some_f (
          subst
            (λ (k : List LrcuPtr). Steps n y0 (at [] k (destroy (map ptr_call (goes xs)) called)))
            (append_assoc kept (shorten x ∷ []) (map shorten (stays xs))) rest)
    | inr none_f ↦
        let passed' = rw none_f at passed in
        let free =
          unblocked (at (map shorten (x ∷ xs)) kept called) current n x.version copies passed'.0 in
        let next = go r (call current (shorten x) (map shorten xs) kept refl refl free) in
        rw none_f (serve_work xs kept (include x.ptr called) passed'.1 next)
  ]
