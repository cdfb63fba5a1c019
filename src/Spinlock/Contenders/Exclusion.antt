-- ===== src/Spinlock/Contenders/Exclusion.antt =====
-- The lock as a queue: mutual exclusion, and that a waiting thread waits for another one.
use light_rcu.Prelude.{
  ℕ, zero, suc, ◌%◌, ◌≤◌, ◌≡◌, ◌⊎◌, inl, inr, refl, true, List, [], ◌∷◌, arith, sym, ap, ◌∙◌,
}
use light_rcu.Spinlock.{u16_mod, is_served}
use light_rcu.Spinlock.Contenders.{away, waiting, holding, Contenders, LockReach, fresh, after}
use light_rcu.Spinlock.Contenders.Queue.{queued, count, Queued}
use light_rcu.Spinlock.Contenders.Moves.{queued-member}
use light_rcu.Spinlock.Contenders.Simulation.{holder_of, LockStep-Simulates}

count_away : (n : ℕ) → count n (λ i. away) ≡ 0
count_away zero = refl
count_away (suc n) = omega (arith, count_away n)

pub LockReach-Queued :
    {n : ℕ} {s : Contenders} → n ≤ u16_mod → LockReach n s → (t : ℕ) × (q : List ℕ) × Queued n s t q
LockReach-Queued {n} small fresh = (
  0,
  [],
  record {
    ticket_ok = refl;
    users_ok = refl;
    front = tt;
    distinct = tt;
    others = λ i m. refl;
    reads = λ i. omega arith;
    size = sym (count_away n);
  },
)
LockReach-Queued small (after r st) =
    let b = LockReach-Queued small r in let a = LockStep-Simulates small b.2 st in (a.0, a.1, a.2)

-- Two threads of a queue that hold the lock are both the first.
holders_same :
    {n : ℕ} {s : Contenders} (t : ℕ) (q : List ℕ) (i j : ℕ)
    → Queued n s t q
    → s.pcs i ≡ holding
    → s.pcs j ≡ holding
    → i ≡ j
holders_same {n} {s} t [] i j inv hi hj =
    ground (arith, queued-member n s t [] inv i (ap queued hi))
holders_same {n} {s} t (x ∷ r) i j inv hi hj =
    let a =
      holder_of s.pcs i t x r inv.front (queued-member n s t (x ∷ r) inv i (ap queued hi)) hi in
    let b =
      holder_of s.pcs j t x r inv.front (queued-member n s t (x ∷ r) inv j (ap queued hj)) hj in
    a ∙ sym b

-- Of up to 65536 threads that lock, try to lock and unlock in any order, no two hold the lock.
pub LockReach-exclusion :
    {n : ℕ} {s : Contenders}
    → n ≤ u16_mod
    → LockReach n s
    → (i j : ℕ) → s.pcs i ≡ holding
    → s.pcs j ≡ holding
    → i ≡ j
LockReach-exclusion small r i j hi hj =
    let b = LockReach-Queued small r in holders_same b.0 b.1 i j b.2 hi hj

-- The thread holds the lock, or its ticket is the one served.
abbrev pub IsNext : Contenders → ℕ → Type 0
IsNext s j = (s.pcs j ≡ holding) ⊎ ((x : ℕ) × (s.pcs j ≡ waiting x) × (is_served s.lock x ≡ true))

first-IsNext :
    {n : ℕ} {s : Contenders} (t : ℕ) (q : List ℕ) (i me : ℕ)
    → Queued n s t q
    → s.pcs i ≡ waiting me
    → (j : ℕ) × IsNext s j
unfolding is_served
first-IsNext {n} {s} t [] i me inv e =
    let m = queued-member n s t [] inv i (ap queued e) in ground arith
first-IsNext {n} {s} t (x ∷ r) i me inv e = elim (inv.front.0) [
  | inl w ↦ (x, inr (t % u16_mod, w, ground (arith, inv.ticket_ok)))
  | inr h ↦ (x, inl h)
]

-- While one of up to 65536 threads waits for the lock, some thread holds it or has the ticket that is
-- served, and can enter: no step of any thread loses the lock.
pub LockReach-IsNext :
    {n : ℕ} {s : Contenders}
    → n ≤ u16_mod
    → LockReach n s
    → (i me : ℕ) → s.pcs i ≡ waiting me
    → (j : ℕ) × IsNext s j
LockReach-IsNext small r i me e =
    let b = LockReach-Queued small r in first-IsNext b.0 b.1 i me b.2 e
