-- ===== src/Spinlock/Contenders/Queue.antt =====
-- The threads that have drawn a ticket, in the order of their tickets.
use light_rcu.Prelude.{
  ℕ, zero, suc, ◌+◌, ◌%◌, ◌≤◌, ◌<◌, ◌≡◌, ◌⊎◌, inl, inr, refl, Bool, true, false, ◌||◌, List, [],
  ◌∷◌, ◌++◌, ◌==◌, update, length, arith, Bool-cases, ==→eq,
}
use light_rcu.Spinlock.{u16_mod}
use light_rcu.Spinlock.Contenders.{LockPc, away, trying, waiting, holding, Contenders}

-- The thread has drawn a ticket and not yet given it back.
abbrev pub queued : LockPc → Bool
queued away = false
queued (trying me) = false
queued (waiting me) = true
queued holding = true

-- What `lrcu_spin_trylock` has read.
abbrev pub read_of : LockPc → ℕ
read_of away = 0
read_of (trying me) = me
read_of (waiting me) = 0
read_of holding = 0

abbrev pub bit : Bool → ℕ
bit true = 1
bit false = 0

-- How many of the first `n` threads are queued.
abbrev pub count : ℕ → (ℕ → LockPc) → ℕ
count zero pcs = 0
count (suc n) pcs = bit (queued (pcs n)) + count n pcs

abbrev pub member : ℕ → List ℕ → Bool
member i [] = false
member i (x ∷ q) = (i == x) || member i q

abbrev pub Distinct : List ℕ → Type 0
Distinct [] = Unit
Distinct (x ∷ q) = (member x q ≡ false) × Distinct q

-- The threads wait, the first with ticket `t`, each with the one after.
abbrev pub Waits : (ℕ → LockPc) → ℕ → List ℕ → Type 0
Waits pcs t [] = Unit
Waits pcs t (i ∷ q) = (pcs i ≡ waiting (t % u16_mod)) × Waits pcs (t + 1) q

-- The first may also hold the lock.
abbrev pub Front : (ℕ → LockPc) → ℕ → List ℕ → Type 0
Front pcs t [] = Unit
Front pcs t (i ∷ q) = ((pcs i ≡ waiting (t % u16_mod)) ⊎ (pcs i ≡ holding)) × Waits pcs (t + 1) q

-- The queue that a lock stands for after `t` releases.
pub record Queued (n : ℕ) (s : Contenders) (t : ℕ) (q : List ℕ) : Type 0 where
  pub ticket_ok : s.lock.ticket ≡ t % u16_mod
  pub users_ok : s.lock.users ≡ (t + length q) % u16_mod
  pub front : Front s.pcs t q
  pub distinct : Distinct q
  pub others : (i : ℕ) → member i q ≡ false → queued (s.pcs i) ≡ false
  pub reads : (i : ℕ) → read_of (s.pcs i) < u16_mod
  pub size : length q ≡ count n s.pcs

pub count-above :
    (n i : ℕ) (p : LockPc) (pcs : ℕ → LockPc) → n ≤ i → count n (update pcs i p) ≡ count n pcs
count-above zero i p pcs le = refl
count-above (suc n) i p pcs le =
    let z : (n == i) ≡ false = ground arith in rw (z, count-above n i p pcs (omega arith)) refl

pub count-update :
    (n i : ℕ) (p : LockPc) (pcs : ℕ → LockPc)
    → i < n
    → count n (update pcs i p) + bit (queued (pcs i)) ≡ count n pcs + bit (queued p)
count-update zero i p pcs lt = ground arith
count-update (suc n) i p pcs lt = elim (Bool-cases (n == i)) [
  | inl same ↦
      let e = ==→eq n i same in
      let a = count-above n i p pcs (omega arith) in rw (same, a, e) (omega arith)
  | inr other ↦ rw other (omega (arith, count-update n i p pcs (ground arith)))
]

pub count_bound : (n : ℕ) (pcs : ℕ → LockPc) → count n pcs ≤ n
count_bound zero pcs = omega arith
count_bound (suc n) pcs = ground (arith, count_bound n pcs)

pub count_free : (n i : ℕ) (pcs : ℕ → LockPc) → i < n → queued (pcs i) ≡ false → count n pcs < n
count_free zero i pcs lt z = ground arith
count_free (suc n) i pcs lt z = elim (Bool-cases (n == i)) [
  | inl same ↦
      let e = ==→eq n i same in
      let z' : queued (pcs n) ≡ false = rw e z in rw z' (omega (arith, count_bound n pcs))
  | inr other ↦ ground (arith, count_free n i pcs (ground arith) z)
]

pub Waits-update :
    (pcs : ℕ → LockPc) (i : ℕ) (p : LockPc) (t : ℕ) (q : List ℕ)
    → Waits pcs t q
    → member i q ≡ false
    → Waits (update pcs i p) t q
Waits-update pcs i p t [] w off = tt
Waits-update pcs i p t (x ∷ q) w off =
    let z : (x == i) ≡ false = ground arith in
    (rw z (w.0), Waits-update pcs i p (t + 1) q w.1 (ground arith))

pub Waits-join :
    (pcs : ℕ → LockPc) (i t : ℕ) (q : List ℕ)
    → Waits pcs t q
    → pcs i ≡ waiting ((t + length q) % u16_mod)
    → Waits pcs t (q ++ i ∷ [])
Waits-join pcs i t [] w e = let z : t + 0 ≡ t = omega arith in (rw z at e, tt)
Waits-join pcs i t (x ∷ q) w e =
    let z : t + suc (length q) ≡ t + 1 + length q = omega arith in
    (w.0, Waits-join pcs i (t + 1) q w.1 (rw z at e))

pub Waits-member :
    (pcs : ℕ → LockPc) (i t : ℕ) (q : List ℕ)
    → Waits pcs t q
    → member i q ≡ true
    → (k : ℕ) × (k < length q) × (pcs i ≡ waiting ((t + k) % u16_mod))
Waits-member pcs i t [] w m = ground arith
Waits-member pcs i t (x ∷ q) w m = elim (Bool-cases (i == x)) [
  | inl same ↦ let z : t + 0 ≡ t = omega arith in (0, omega arith, rw (==→eq i x same, z) (w.0))
  | inr other ↦
      let r = Waits-member pcs i (t + 1) q w.1 (ground arith) in
      let z : t + suc r.0 ≡ t + 1 + r.0 = omega arith in (suc r.0, omega (arith, r.1), rw z (r.2))
]

pub member-join : (a i : ℕ) (q : List ℕ) → member a (q ++ i ∷ []) ≡ (member a q || (a == i))
member-join a i [] = ground arith
member-join a i (x ∷ q) = ground (arith, member-join a i q)

pub Distinct-join : (i : ℕ) (q : List ℕ) → Distinct q → member i q ≡ false → Distinct (q ++ i ∷ [])
Distinct-join i [] d off = (refl, tt)
Distinct-join i (x ∷ q) d off =
    (ground (arith, member-join x i q, d.0), Distinct-join i q d.1 (ground arith))
