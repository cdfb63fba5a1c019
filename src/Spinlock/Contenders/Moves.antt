-- ===== src/Spinlock/Contenders/Moves.antt =====
-- What the steps do to the queue.
use light_rcu.Prelude.{
  ℕ, suc, ◌+◌, ◌%◌, ◌<◌, ◌≡◌, ◌⊎◌, inl, inr, true, false, List, [], ◌∷◌, ◌++◌, ◌==◌, update, length,
  length-append, arith, Bool-cases, ==→eq, ap,
}
use light_rcu.Spinlock.{u16_mod}
use light_rcu.Spinlock.Word.{taken}
use light_rcu.Spinlock.Contenders.{LockPc, waiting, holding, Contenders, moved}
use light_rcu.Spinlock.Contenders.Queue.{
  queued, read_of, member, Waits, Front, Queued, count-update, Waits-update, Waits-join,
  Waits-member, member-join, Distinct-join,
}

pub Front-update :
    (pcs : ℕ → LockPc) (i : ℕ) (p : LockPc) (t : ℕ) (q : List ℕ)
    → Front pcs t q
    → member i q ≡ false
    → Front (update pcs i p) t q
Front-update pcs i p t [] f off = tt
Front-update pcs i p t (x ∷ q) f off =
    let z : (x == i) ≡ false = ground arith in
    (rw z (f.0), Waits-update pcs i p (t + 1) q f.1 (ground arith))

pub Front-join :
    (pcs : ℕ → LockPc) (i t : ℕ) (q : List ℕ)
    → Front pcs t q
    → pcs i ≡ waiting ((t + length q) % u16_mod)
    → Front pcs t (q ++ i ∷ [])
Front-join pcs i t [] f e = let z : t + 0 ≡ t = omega arith in (inl (rw z at e), tt)
Front-join pcs i t (x ∷ q) f e =
    let z : t + suc (length q) ≡ t + 1 + length q = omega arith in
    (f.0, Waits-join pcs i (t + 1) q f.1 (rw z at e))

pub Waits-Front : (pcs : ℕ → LockPc) (t : ℕ) (q : List ℕ) → Waits pcs t q → Front pcs t q
Waits-Front pcs t [] w = tt
Waits-Front pcs t (x ∷ q) w = (inl (w.0), w.1)

head-queued : (p : LockPc) (t : ℕ) → (p ≡ waiting t) ⊎ (p ≡ holding) → queued p ≡ true
head-queued p t (inl e) = ap queued e
head-queued p t (inr e) = ap queued e

member-queued :
    (pcs : ℕ → LockPc) (i t : ℕ) (q : List ℕ)
    → Front pcs t q
    → member i q ≡ true
    → queued (pcs i) ≡ true
member-queued pcs i t [] f m = ground arith
member-queued pcs i t (x ∷ q) f m = elim (Bool-cases (i == x)) [
  | inl same ↦ rw (==→eq i x same) (head-queued (pcs x) (t % u16_mod) f.0)
  | inr other ↦ let w = Waits-member pcs i (t + 1) q f.1 (ground arith) in ap queued w.2
]

module _ (n : ℕ) (s : Contenders) (t : ℕ) (q : List ℕ) (inv : Queued n s t q) (i : ℕ) where
  pub queued-member : queued (s.pcs i) ≡ true → member i q ≡ true
  queued-member e = elim (Bool-cases (member i q)) [
    | inl m ↦ m
    | inr m ↦ ground (arith, inv.others i m)
  ]

  pub unqueued-off : queued (s.pcs i) ≡ false → member i q ≡ false
  unqueued-off e = elim (Bool-cases (member i q)) [
    | inl m ↦ ground (arith, member-queued s.pcs i t q inv.front m)
    | inr m ↦ m
  ]

  pub reads-update :
      (p : LockPc) → read_of p < u16_mod → (j : ℕ) → read_of (update s.pcs i p j) < u16_mod
  reads-update p h j = elim (Bool-cases (j == i)) [
    | inl same ↦ rw same h
    | inr other ↦ rw other (inv.reads j)
  ]

  -- A thread outside the queue goes on there.
  pub Queued-stays :
      (p : LockPc)
      → i < n
      → queued (s.pcs i) ≡ false
      → queued p ≡ false
      → read_of p < u16_mod
      → Queued n (moved s i p s.lock) t q
  Queued-stays p lt e e' h = record {
    ticket_ok = inv.ticket_ok;
    users_ok = inv.users_ok;
    front = Front-update s.pcs i p t q inv.front (unqueued-off e);
    distinct = inv.distinct;
    others = λ j m. elim (Bool-cases (j == i)) [
      | inl same ↦ rw same e'
      | inr other ↦ rw other (inv.others j m)
    ];
    reads = reads-update p h;
    size =
        let c = count-update n i p s.pcs lt in let c' = rw (e, e') at c in omega (arith, inv.size);
  }

  -- A thread comes to the end of the queue.
  pub Queued-joins :
      (p : LockPc)
      → i < n
      → queued (s.pcs i) ≡ false
      → queued p ≡ true
      → read_of p < u16_mod
      → Front (update s.pcs i p) t (q ++ i ∷ [])
      → Queued n (moved s i p (taken s.lock)) t (q ++ i ∷ [])
  Queued-joins p lt e e' h f = record {
    ticket_ok = inv.ticket_ok;
    users_ok = omega (arith, inv.users_ok, length-append q (i ∷ []));
    front = f;
    distinct = Distinct-join i q inv.distinct (unqueued-off e);
    others = λ j m.
        let z : (j == i) ≡ false = ground (arith, member-join j i q) in
        rw z (inv.others j (ground (arith, member-join j i q)));
    reads = reads-update p h;
    size =
        let c = count-update n i p s.pcs lt in
        let c' = rw (e, e') at c in omega (arith, inv.size, length-append q (i ∷ []));
  }
