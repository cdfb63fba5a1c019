-- ===== src/Spinlock/Contenders/Simulation.antt =====
-- Each step of the lock is a step of a queue.
use light_rcu.Prelude.{
  ℕ, suc, ◌+◌, ◌%◌, ◌≤◌, ◌<◌, ◌≡◌, inl, inr, refl, true, false, ◌&&◌, List, [], ◌∷◌, ◌++◌, ◌==◌,
  if◌then◌else◌, update, length, arith, Bool-cases, ==→eq, subst, sym, ap, ◌∙◌,
}
use light_rcu.Spinlock.{Spinlock, u16_mod, draw, is_served, swap, spin_unlock}
use light_rcu.Spinlock.Word.{Fits, taken}
use light_rcu.Spinlock.Contenders.{
  LockPc, away, trying, waiting, holding, Contenders, moved, tried, LockStep, xadd, enter, relax,
  unlock, read_users, try_swap,
}
use light_rcu.Spinlock.Contenders.Queue.{
  queued, member, Front, Queued, count-update, count_bound, count_free, Waits-update, Waits-member,
}
use light_rcu.Spinlock.Contenders.Moves.{
  Front-update, Front-join, Waits-Front, queued-member, unqueued-off, reads-update, Queued-stays,
  Queued-joins,
}

-- What a step does to the queue of the threads with a ticket.
pub data QueueStep (q : List ℕ) : List ℕ → Type 0 where
  stays : QueueStep q q
  joins : (i : ℕ) → member i q ≡ false → QueueStep q (q ++ i ∷ [])
  leaves : (i : ℕ) (r : List ℕ) → q ≡ i ∷ r → QueueStep q r

abbrev waits_ticket : LockPc → ℕ
waits_ticket away = 0
waits_ticket (trying me) = 0
waits_ticket (waiting me) = me + 1
waits_ticket holding = 0

-- The thread with the ticket served is the first.
served_head :
    (pcs : ℕ → LockPc) (i me t x : ℕ) (r : List ℕ)
    → Front pcs t (x ∷ r)
    → member i (x ∷ r) ≡ true
    → length (x ∷ r) ≤ u16_mod
    → pcs i ≡ waiting me
    → me ≡ t % u16_mod
    → i ≡ x
served_head pcs i me t x r f m fits e served = elim (Bool-cases (i == x)) [
  | inl same ↦ ==→eq i x same
  | inr other ↦
      let w = Waits-member pcs i (t + 1) r f.1 (ground arith) in
      let k : me + 1 ≡ (t + 1 + w.0) % u16_mod + 1 = ap waits_ticket (sym e ∙ w.2) in
      omega (arith, w.1)
]

-- The holder is the first.
pub holder_of :
    (pcs : ℕ → LockPc) (i t x : ℕ) (r : List ℕ)
    → Front pcs t (x ∷ r)
    → member i (x ∷ r) ≡ true
    → pcs i ≡ holding
    → i ≡ x
holder_of pcs i t x r f m e = elim (Bool-cases (i == x)) [
  | inl same ↦ ==→eq i x same
  | inr other ↦
      let w = Waits-member pcs i (t + 1) r f.1 (ground arith) in
      let k : 0 ≡ (t + 1 + w.0) % u16_mod + 1 = ap waits_ticket (sym e ∙ w.2) in omega arith
]

-- `s` stands for a queue that the step leads to from `q`.
abbrev pub Simulates : ℕ → Contenders → List ℕ → Type 0
Simulates n s q = (t : ℕ) × (q' : List ℕ) × Queued n s t q' × QueueStep q q'

enter_Queued :
    (n : ℕ) (s : Contenders) (t : ℕ) (q : List ℕ) (i me : ℕ)
    → n ≤ u16_mod
    → Queued n s t q
    → i < n
    → s.pcs i ≡ waiting me
    → me ≡ s.lock.ticket
    → Queued n (moved s i holding s.lock) t q
enter_Queued n s t [] i me small inv lt e served =
    ground (arith, queued-member n s t [] inv i (ap queued e))
enter_Queued n s t (x ∷ r) i me small inv lt e served =
    let m = queued-member n s t (x ∷ r) inv i (ap queued e) in
    let fits : length (x ∷ r) ≤ u16_mod = omega (arith, inv.size, count_bound n s.pcs) in
    let first = served_head s.pcs i me t x r inv.front m fits e (served ∙ inv.ticket_ok) in
    let z : (x == i) ≡ true = ground arith in
    let off : member i r ≡ false = rw first (inv.distinct.0) in
    record {
      ticket_ok = inv.ticket_ok;
      users_ok = inv.users_ok;
      front = (rw z (inr refl), Waits-update s.pcs i holding (t + 1) r inv.front.1 off);
      distinct = inv.distinct;
      others = λ j k. let y : (j == i) ≡ false = ground arith in rw y (inv.others j k);
      reads = reads-update n s t (x ∷ r) inv i holding (omega arith);
      size =
          let q : queued (s.pcs i) ≡ true = ap queued e in
          let c = count-update n i holding s.pcs lt in
          let c' = rw q at c in omega (arith, inv.size);
    }

unlock_Queued :
    (n : ℕ) (s : Contenders) (t : ℕ) (i : ℕ) (r : List ℕ)
    → Queued n s t (i ∷ r)
    → i < n
    → s.pcs i ≡ holding
    → Queued n (moved s i away (spin_unlock s.lock)) (t + 1) r
unfolding spin_unlock
unlock_Queued n s t i r inv lt e = record {
  ticket_ok = omega (arith, inv.ticket_ok);
  users_ok = let z : t + suc (length r) ≡ t + 1 + length r = omega arith in rw z at (inv.users_ok);
  front =
      Waits-Front (update s.pcs i away) (t + 1) r
        (Waits-update s.pcs i away (t + 1) r inv.front.1 inv.distinct.0);
  distinct = inv.distinct.1;
  others = λ j k. elim (Bool-cases (j == i)) [
    | inl same ↦ rw same refl
    | inr other ↦ rw other (inv.others j (ground arith))
  ];
  reads = reads-update n s t (i ∷ r) inv i away (omega arith);
  size =
      let q : queued (s.pcs i) ≡ true = ap queued e in
      let c = count-update n i away s.pcs lt in let c' = rw q at c in omega (arith, inv.size);
}

unlock_Simulates :
    (n : ℕ) (s : Contenders) (t : ℕ) (q : List ℕ) (i : ℕ)
    → Queued n s t q
    → i < n
    → s.pcs i ≡ holding
    → Simulates n (moved s i away (spin_unlock s.lock)) q
unlock_Simulates n s t [] i inv lt e = ground (arith, queued-member n s t [] inv i (ap queued e))
unlock_Simulates n s t (x ∷ r) i inv lt e =
    let m = queued-member n s t (x ∷ r) inv i (ap queued e) in
    let first = holder_of s.pcs i t x r inv.front m e in
    let inv' : Queued n s t (i ∷ r) = subst (λ (y : ℕ). Queued n s t (y ∷ r)) (sym first) inv in
    (t + 1, r, unlock_Queued n s t i r inv' lt e, leaves x r refl)

-- The word is the expected one when both counters are.
pub swap_lem :
    (me : ℕ) (l : Spinlock)
    → Fits l
    → me < u16_mod
    → swap me l ≡ (if (l.ticket == me) && (l.users == me) then (0, taken l) else (1, l))
unfolding swap
swap_lem me l f lt = ground arith

-- A lock whose counters agree has no queue.
hit_Simulates :
    (n : ℕ) (s : Contenders) (t : ℕ) (q : List ℕ) (i : ℕ)
    → n ≤ u16_mod
    → Queued n s t q
    → i < n
    → queued (s.pcs i) ≡ false
    → s.lock.ticket ≡ s.lock.users
    → Simulates n (moved s i holding (taken s.lock)) q
hit_Simulates n s t [] i small inv lt e agree =
    let z : (i == i) ≡ true = ground arith in
    (
      t,
      i ∷ [],
      Queued-joins n s t [] inv i holding lt e refl (omega arith) (rw z (inr refl), tt),
      joins i refl,
    )
hit_Simulates n s t (x ∷ r) i small inv lt e agree =
    let none : length (x ∷ r) ≡ 0 =
      omega (arith, inv.size, inv.ticket_ok, inv.users_ok, count_free n i s.pcs lt e) in
    ground arith

swap-Simulates :
    (n : ℕ) (s : Contenders) (t : ℕ) (q : List ℕ) (i me : ℕ)
    → n ≤ u16_mod
    → Queued n s t q
    → i < n
    → s.pcs i ≡ trying me
    → Simulates n (moved s i (tried (swap me s.lock).0) (swap me s.lock).1) q
swap-Simulates n s t q i me small inv lt e =
    let un : queued (s.pcs i) ≡ false = ap queued e in
    let mf : me < u16_mod = let h = inv.reads i in rw e at h in
    let fits : Fits s.lock = record {
      ticket_fits = omega (arith, inv.ticket_ok);
      users_fits = omega (arith, inv.users_ok);
    } in
    let sw = swap_lem me s.lock fits mf in
    elim (Bool-cases ((s.lock.ticket == me) && (s.lock.users == me))) [
      | inl hit ↦
          let r = rw hit at sw in rw r (hit_Simulates n s t q i small inv lt un (ground arith))
      | inr miss ↦
          let r = rw miss at sw in
          rw r (t, q, Queued-stays n s t q inv i away lt un refl (omega arith), stays)
    ]

-- With up to 65536 threads the lock is a queue of threads, where only the first may hold it: each
-- step of a thread leaves the queue as it is, puts at its end a thread that is not in it, or takes its
-- first thread off.
pub LockStep-Simulates :
    {n : ℕ} {s s' : Contenders} {t : ℕ} {q : List ℕ}
    → n ≤ u16_mod
    → Queued n s t q
    → LockStep n s s'
    → Simulates n s' q
unfolding draw is_served
LockStep-Simulates {n} {s} {s'} {t} {q} small inv (xadd i lt e) =
    let un : queued (s.pcs i) ≡ false = ap queued e in
    let off = unqueued-off n s t q inv i un in
    let z : (i == i) ≡ true = ground arith in
    let p = waiting s.lock.users in
    let f =
      Front-join (update s.pcs i p) i t q (Front-update s.pcs i p t q inv.front off)
        (rw z (ap waiting inv.users_ok)) in
    (t, q ++ i ∷ [], Queued-joins n s t q inv i p lt un refl (omega arith) f, joins i off)
LockStep-Simulates {n} {s} {s'} {t} {q} small inv (enter i me lt e served) =
    let k = ==→eq s.lock.ticket me served in
    (t, q, enter_Queued n s t q i me small inv lt e (sym k), stays)
LockStep-Simulates {n} {s} {s'} {t} {q} small inv (relax i me lt e busy) = (t, q, inv, stays)
LockStep-Simulates {n} {s} {s'} {t} {q} small inv (unlock i lt e) =
    unlock_Simulates n s t q i inv lt e
LockStep-Simulates {n} {s} {s'} {t} {q} small inv (read_users i lt e) = (
  t,
  q,
  Queued-stays n s t q inv i (trying s.lock.users) lt (ap queued e) refl
      (omega (arith, inv.users_ok)),
  stays,
)
LockStep-Simulates {n} {s} {s'} {t} {q} small inv (try_swap i me lt e) =
    swap-Simulates n s t q i me small inv lt e
