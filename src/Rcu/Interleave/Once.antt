-- ===== src/Rcu/Interleave/Once.antt =====
-- No destructor is called twice for an object: how often a pointer is on its way to its destructor.
use light_rcu.Prelude.{
  ℕ, ◌+◌, ◌≤◌, ◌≡◌, ◌≢◌, refl, sym, ap, subst, Bool, false, Bool-cases, inl, inr, List, [], ◌∷◌,
  ◌++◌, All, arith, ◌==◌, ==→eq, ==→ne, ◌∙◌, if◌then◌else◌, update,
}
use light_rcu.Rcu.State.{LrcuPtr}
use light_rcu.Rcu.Interleave.{
  Sys, WriterPc, idle, bumped, written, calling, WorkerPc, resting, spliced, scanning, serving,
  request, Step, move, barrier, lock, unlock, bump, assign, take_version, add, pass_over, lose,
  splice, start, see_version, see_counter, decide, keep, call, finish, Start, Reach, here, later,
}
use light_rcu.Rcu.Interleave.Pending.{Guarded}
use light_rcu.Rcu.Interleave.Invariant.{Inv, WriterOk, WorkerOk}
use light_rcu.Rcu.Interleave.Safety.{Reach-Inv}

abbrev one_if : Bool → ℕ
one_if b = if b then 1 else 0

-- The requests for a pointer in a list.
tally : ℕ → List LrcuPtr → ℕ
tally p [] = 0
tally p (q ∷ xs) = one_if (p == q.ptr) + tally p xs

tally-append : (p : ℕ) (xs ys : List LrcuPtr) → tally p (xs ++ ys) ≡ tally p xs + tally p ys
unfolding tally
tally-append p [] ys = omega arith
tally-append p (x ∷ xs) ys = omega (arith, tally-append p xs ys)

-- What a writer has in hand, and what the worker has set aside.
in_hand : ℕ → WriterPc → ℕ
in_hand p idle = 0
in_hand p (bumped c new) = 0
in_hand p (written old) = one_if (p == old)
in_hand p (calling old v) = one_if (p == old)

set_aside : ℕ → WorkerPc → ℕ
set_aside p resting = 0
set_aside p spliced = 0
set_aside p (scanning current) = 0
set_aside p (serving current kept) = tally p kept

-- How often a pointer waits, or has been destroyed.
abbrev waiting : Sys → ℕ → ℕ
waiting s p =
    tally p s.free_list + tally p s.worker_list + set_aside p s.worker + one_if (s.called p)

-- A pointer is in one writer's hand, or waits or has been destroyed, at most once.
abbrev Apart : ℕ → (ℕ → WriterPc) → ℕ → Type 0
Apart p ws rest =
    ((i : ℕ) → in_hand p (ws i) + rest ≤ 1)
    × ((i j : ℕ) → i ≢ j → in_hand p (ws i) + in_hand p (ws j) ≤ 1)

abbrev Once : Sys → Type 0
Once s = (p : ℕ) → Apart p s.writers (waiting s p)

-- A writer moves on: it has `w` in hand, and `rest'` pointers wait.
Apart-update :
    (p i : ℕ) (ws : ℕ → WriterPc) (w : WriterPc) (rest rest' : ℕ)
    → Apart p ws rest
    → in_hand p w + rest' ≤ 1
    → ((j : ℕ) → (j == i) ≡ false → in_hand p (ws j) + in_hand p w + rest' ≤ 1)
    → Apart p (update ws i w) rest'
Apart-update p i ws w rest rest' h own others = (
  λ j. elim (Bool-cases (j == i)) [
    | inl mine ↦ rw mine own
    | inr theirs ↦ rw theirs (omega (arith, others j theirs))
  ],
  λ j k n. elim (Bool-cases (j == i)) [
    | inl j_is ↦ elim (Bool-cases (k == i)) [
      | inl k_is ↦ absurd (n (==→eq j i j_is ∙ sym (==→eq k i k_is)))
      | inr k_not ↦ rw (j_is, k_not) (omega (arith, others k k_not))
    ]
    | inr j_not ↦ elim (Bool-cases (k == i)) [
      | inl k_is ↦ rw (j_not, k_is) (omega (arith, others j j_not))
      | inr k_not ↦ rw (j_not, k_not) (h.1 j k n)
    ]
  ],
)

-- What the writer has in hand does not grow, or is passed on.
Apart-pass :
    (p i : ℕ) (ws : ℕ → WriterPc) (w : WriterPc) (rest rest' : ℕ)
    → Apart p ws rest
    → in_hand p w + rest' ≤ in_hand p (ws i) + rest
    → rest ≤ rest'
    → Apart p (update ws i w) rest'
Apart-pass p i ws w rest rest' h le grows =
    Apart-update p i ws w rest rest' h (omega (arith, le, h.0 i))
      (λ j n. omega (arith, le, h.0 i, h.0 j, h.1 i j (λ e. ==→ne j i n (sym e))))

Apart-le :
    (p : ℕ) (ws : ℕ → WriterPc) (rest rest' : ℕ) → rest' ≤ rest → Apart p ws rest → Apart p ws rest'
Apart-le p ws rest rest' le h = (λ i. omega (arith, h.0 i), h.1)

tally-All : (p : ℕ) (xs : List LrcuPtr) → tally p xs ≡ 0 → All (λ q. q.ptr ≢ p) xs
unfolding tally
tally-All p [] h = tt
tally-All p (q ∷ xs) h = (ground arith, tally-All p xs (omega arith))

-- A pointer in a cell is not on its way.
tally-zero : (s : Sys) (c : ℕ) (xs : List LrcuPtr) → All (Guarded s) xs → tally (s.cells c) xs ≡ 0
unfolding tally
tally-zero s c [] h = refl
tally-zero s c (q ∷ xs) h = elim (Bool-cases (s.cells c == q.ptr)) [
  | inl same ↦ absurd (h.0.removed.off c (==→eq (s.cells c) q.ptr same))
  | inr other ↦ rw other (omega (arith, tally-zero s c xs h.1))
]

set_aside-zero :
    (n : ℕ) (s : Sys) (w : WorkerPc) (c : ℕ) → WorkerOk n s w → set_aside (s.cells c) w ≡ 0
unfolding set_aside
set_aside-zero n s resting c h = refl
set_aside-zero n s spliced c h = refl
set_aside-zero n s (scanning current) c h = refl
set_aside-zero n s (serving current kept) c h = tally-zero s c kept h.1

called-zero : {n : ℕ} {s : Sys} → Inv n s → (c : ℕ) → s.called (s.cells c) ≡ false
called-zero {s} inv c = elim (Bool-cases (s.called (s.cells c))) [
  | inl is_called ↦ absurd ((inv.called_ok (s.cells c) is_called).removed.off c refl)
  | inr not_called ↦ not_called
]

in_hand-zero : (s : Sys) (w : WriterPc) (c : ℕ) → WriterOk s w → in_hand (s.cells c) w ≡ 0
unfolding in_hand
in_hand-zero s idle c h = refl
in_hand-zero s (bumped d new) c h = refl
in_hand-zero s (written old) c h = elim (Bool-cases (s.cells c == old)) [
  | inl same ↦ absurd (h.off c (==→eq (s.cells c) old same))
  | inr other ↦ rw other refl
]
in_hand-zero s (calling old v) c h = elim (Bool-cases (s.cells c == old)) [
  | inl same ↦ absurd (h.removed.off c (==→eq (s.cells c) old same))
  | inr other ↦ rw other refl
]

-- A pointer in a cell neither waits nor has been destroyed.
waiting-zero : {n : ℕ} {s : Sys} → Inv n s → (c : ℕ) → waiting s (s.cells c) ≡ 0
waiting-zero {n} {s} inv c = omega (
  arith,
  tally-zero s c s.free_list inv.free_ok,
  tally-zero s c s.worker_list inv.work_ok,
  set_aside-zero n s s.worker c inv.worker_ok,
  ap one_if (called-zero inv c),
)

assign-Once :
    {n : ℕ} {s : Sys}
    → Inv n s
    → Once s
    → (i c new : ℕ) → s.writers i ≡ bumped c new
    → (p : ℕ) → Apart p (update s.writers i (written (s.cells c))) (waiting s p)
unfolding in_hand
assign-Once {n} {s} inv h i c new e p = elim (Bool-cases (p == s.cells c)) [
  | inl same ↦
      subst (λ (x : ℕ). Apart x (update s.writers i (written (s.cells c))) (waiting s x))
        (sym (==→eq p (s.cells c) same))
        (Apart-update (s.cells c) i s.writers (written (s.cells c)) (waiting s (s.cells c))
          (waiting s (s.cells c)) (h (s.cells c)) (ground (arith, waiting-zero inv c))
          (λ j other.
            ground
              (arith, waiting-zero inv c, in_hand-zero s (s.writers j) c (inv.writers_ok.0 j))))
  | inr other ↦
      let gone : in_hand p (written (s.cells c)) ≡ 0 = rw other refl in
      Apart-pass p i s.writers (written (s.cells c)) (waiting s p) (waiting s p) (h p)
        (omega (arith, gone)) (omega arith)
]

Step-Once : {n : ℕ} {s t : Sys} → Inv n s → Once s → Step n s t → Once t
unfolding tally in_hand set_aside
Step-Once inv h (move i t below m) p = h p
Step-Once inv h barrier p = h p
Step-Once inv h (lock i e) p = h p
Step-Once inv h (unlock i e settled) p = h p
Step-Once {s} inv h (bump i c new e mine fresh) p =
    Apart-pass p i s.writers (bumped c new) (waiting s p) (waiting s p) (h p) (omega arith)
      (omega arith)
Step-Once inv h (assign i c new e) p = assign-Once inv h i c new e p
Step-Once {s} inv h (take_version i old e) p =
    Apart-pass p i s.writers (calling old s.version) (waiting s p) (waiting s p) (h p)
      (omega (arith, ap (in_hand p) e)) (omega arith)
Step-Once {s} inv h (add i old v e) p =
    Apart-pass p i s.writers idle (waiting s p)
      (waiting (record s { free_list = request old v ∷ s.free_list }) p) (h p)
      (omega (arith, ap (in_hand p) e)) (omega arith)
Step-Once {s} inv h (pass_over i old e) p =
    Apart-pass p i s.writers idle (waiting s p) (waiting s p) (h p) (omega arith) (omega arith)
Step-Once {s} inv h (lose i old v e) p =
    Apart-pass p i s.writers idle (waiting s p) (waiting s p) (h p) (omega arith) (omega arith)
Step-Once {s} inv h (splice e) p =
    Apart-le p s.writers (waiting s p) _
      (omega (arith, ap (set_aside p) e, tally-append p s.worker_list s.free_list)) (h p)
Step-Once {s} inv h (start e) p =
    Apart-le p s.writers (waiting s p) _ (omega (arith, ap (set_aside p) e)) (h p)
Step-Once inv h (see_version i current e) p = h p
Step-Once inv h (see_counter i current e) p = h p
Step-Once {s} inv h (decide current e all) p =
    Apart-le p s.writers (waiting s p) _ (omega (arith, ap (set_aside p) e)) (h p)
Step-Once {s} inv h (keep current x xs kept e list) p =
    Apart-le p s.writers (waiting s p) _
      (omega (arith, ap (set_aside p) e, ap (tally p) list, tally-append p kept (x ∷ []))) (h p)
Step-Once {s} inv h (call current x xs kept e list free) p =
    Apart-le p s.writers (waiting s p) _ (ground (arith, ap (tally p) list)) (h p)
Step-Once {s} inv h (finish current kept e list) p =
    Apart-le p s.writers (waiting s p) _ (omega (arith, ap (set_aside p) e, ap (tally p) list))
      (h p)

Start-Once : (s : Sys) → Start s → Once s
unfolding tally in_hand set_aside
Start-Once s h p =
    let none_waits : waiting s p ≡ 0 = omega (
      arith,
      ap (tally p) h.no_free,
      ap (tally p) h.no_work,
      ap (set_aside p) h.worker_rests,
      ap one_if (h.none_called p),
    ) in
    (
      λ i. omega (arith, none_waits, ap (in_hand p) (h.writers_idle i)),
      λ i j n. omega (arith, ap (in_hand p) (h.writers_idle i), ap (in_hand p) (h.writers_idle j)),
    )

Reach-Once : {n : ℕ} {s : Sys} → Reach n s → Once s
Reach-Once {n} {s} (here h) = Start-Once s h
Reach-Once (later r st) = Step-Once (Reach-Inv r) (Reach-Once r) st

-- In every state that is reached from a start by interleaved steps of readers, writers and the
-- worker, an object whose request the worker is about to serve was not destroyed before, and no other
-- request for it waits in the worker's list.
pub Reach-first_call :
    {n : ℕ} {s : Sys}
    → Reach n s
    → (x : LrcuPtr) (xs : List LrcuPtr) → s.worker_list ≡ x ∷ xs
    → (s.called x.ptr ≡ false) × All (λ q. q.ptr ≢ x.ptr) (xs ++ s.free_list)
unfolding tally
Reach-first_call {n} {s} r x xs e =
    let h = (Reach-Once r x.ptr).0 0 in
    (
      ground (arith, h, ap (tally x.ptr) e),
      tally-All x.ptr (xs ++ s.free_list)
          (ground (arith, h, ap (tally x.ptr) e, tally-append x.ptr xs s.free_list)),
    )
