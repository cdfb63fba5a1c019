-- ===== src/Rcu/Sync/Ends.antt =====
-- The wait of `lrcu_synchronize_ns` among readers that come and go.
use light_rcu.Prelude.{
  ℕ, zero, suc, ◌+◌, ◌≤◌, ◌<◌, ◌≡◌, ◌⊎◌, inl, inr, refl, sym, ◌∙◌, subst, true, false, Option, some,
  ok, out_of_fuel, Run, arith, All, Bool-cases, ◌==◌, ==→eq,
}
use light_rcu.Qsort.{Qsort}
use light_rcu.Range.{Range, Slots, tree_init}
use light_rcu.Rcu.State.{LocalNs, ThreadInfo, Namespace}
use light_rcu.Rcu.Sync.{get_synchronized, Synchronized, sync_rounds, synchronize_ns, threads_max}
use light_rcu.Rcu.Sync.Covers.{lns_at, held}
use light_rcu.Rcu.Sync.Hung.{Quiet}
use light_rcu.Rcu.Sync.Gathers.{CanGather, Gathers, get_synchronized-Gathers}
use light_rcu.Rcu.Sync.Grace.{
  Passed, All-Passed, answer, find-answer, answer-safe, answer-exact, not-true,
}

-- The namespace and the threads' information.
abbrev pub Threads : Type 0
Threads = Namespace × (ℕ → Option ThreadInfo)

-- The states in which the rounds begin: the threads may enter and leave sections in between, and the
-- version does not fall.
pub record Course (q : Qsort Range) (now : ℕ → ℕ → ℕ) (others : ℕ → Threads → Threads) (current : ℕ)
    : Type 0 where
  pub states : ℕ → Threads
  pub gathers : (k : ℕ) → CanGather (states k).0 (states k).1 threads_max
  pub later : (k : ℕ) → current ≤ (states k).0.version
  pub steps :
      (k : ℕ) (ranges : Slots) (s : Synchronized)
      → get_synchronized q (now k) (states k).0 (states k).1 (tree_init ranges threads_max) ≡ ok s
      → others k (s.ns, s.infos) ≡ states (suc k)

-- Every thread is in no section, or in one that it entered after `current`.
abbrev pub AllPassed : ℕ → Threads → Type 0
AllPassed current st = All (λ p. Passed current (lns_at st.1 st.0.id p)) st.0.threads

-- The wait goes on, or it ended with a round that began in such a state.
abbrev pub Ends : (ℕ → Threads) → ℕ → Run (ℕ × Synchronized) → Type 0
Ends states current run =
    (run ≡ out_of_fuel)
    ⊎ ((k : ℕ) × (s : Synchronized) × (run ≡ ok (k, s)) × AllPassed current (states k))

-- No thread is in a section that began up to `current`, and some thread is in a later one.
abbrev pub IsClear : ℕ → Threads → Type 0
IsClear current st =
    All (Quiet st.1 st.0.id current) st.0.threads
    × All (Quiet st.1 st.0.id current) st.0.hung_threads
    × (w : ℕ) × (held st.1 st.0.id st.0.version st.0.threads w ≡ true)

-- The wait ended, with round `m` or before.
abbrev pub EndsBy : (ℕ → Threads) → ℕ → ℕ → Run (ℕ × Synchronized) → Type 0
EndsBy states current m run =
    (k : ℕ) × (s : Synchronized) × (run ≡ ok (k, s)) × AllPassed current (states k) × (k ≤ m)

module _ (q : Qsort Range) (now : ℕ → ℕ → ℕ) (others : ℕ → Threads → Threads) (current : ℕ)
    (c : Course q now others current) where
  abbrev rounds : ℕ → ℕ → Slots → Run (ℕ × Synchronized)
  rounds fuel k ranges = sync_rounds q now others fuel k current ranges (c.states k)

  clear-answer :
      (k : ℕ) (s : Synchronized)
      → Gathers (c.states k).0 (c.states k).1 threads_max s
      → IsClear current (c.states k)
      → answer s.tree current ≡ false
  clear-answer k s d h =
      answer-exact s.tree current h.2 (d.reaches h.2 h.3) ∙ d.only current h.0 h.1

  -- A round goes on to the next one, and is then not clear, or it is the last.
  round_step :
      (fuel k : ℕ) (ranges : Slots)
      → (s : Synchronized) × (((rounds (suc fuel) k ranges ≡ rounds fuel (suc k) s.tree.r)
            × (IsClear current (c.states k) → ⊥))
          ⊎ ((rounds (suc fuel) k ranges ≡ ok (k, s)) × AllPassed current (c.states k)))
  unfolding sync_rounds
  round_step fuel k ranges =
      let g = c.gathers k in
      let (s, runs, d) =
        get_synchronized-Gathers q (now k) (c.states k).0 (c.states k).1 ranges threads_max g in
      let finds = find-answer s.tree current d.tree d.disjoint (omega (arith, d.same_capacity)) in
      elim (Bool-cases (answer s.tree current)) [
        | inl held ↦
            let n : k + 1 ≡ suc k = omega arith in
            (
              s,
              inl (
                rw (runs, finds, held, c.steps k ranges s runs, n) refl,
                λ h. let e = clear-answer k s d h in ground arith,
              ),
            )
        | inr free ↦
            let none_held = not-true (λ e. d.reaches current e) (answer-safe s.tree current free) in
            (
              s,
              inr (
                rw (runs, finds, free) refl,
                All-Passed (c.states k).1 (c.states k).0.id (c.states k).0.version current
                    (c.states k).0.threads g.readers (c.later k) none_held,
              ),
            )
      ]

  rounds-Ends : (fuel k : ℕ) (ranges : Slots) → Ends c.states current (rounds fuel k ranges)
  unfolding sync_rounds
  rounds-Ends zero k ranges = inl refl
  rounds-Ends (suc fuel) k ranges =
      let (s, r) = round_step fuel k ranges in
      elim r [
        | inl on ↦ subst (Ends c.states current) (sym on.0) (rounds-Ends fuel (suc k) s.tree.r)
        | inr last ↦ inr (k, s, last.0, last.1)
      ]

  rounds-EndsBy :
      (m fuel k : ℕ) (ranges : Slots)
      → IsClear current (c.states m)
      → k ≤ m
      → m < k + fuel
      → EndsBy c.states current m (rounds fuel k ranges)
  rounds-EndsBy m zero k ranges h le lt = ground arith
  rounds-EndsBy m (suc fuel) k ranges h le lt =
      let (s, r) = round_step fuel k ranges in
      elim r [
        | inl on ↦ elim (Bool-cases (k == m)) [
          | inl same ↦
              let e = ==→eq k m same in
              absurd (on.1 (subst (λ (x : ℕ). IsClear current (c.states x)) (sym e) h))
          | inr other ↦
              subst (EndsBy c.states current m) (sym on.0)
                (rounds-EndsBy m fuel (suc k) s.tree.r h (ground arith) (omega arith))
        ]
        | inr last ↦ (k, s, last.0, last.1, le)
      ]

module _ (q : Qsort Range) (now : ℕ → ℕ → ℕ) (others : ℕ → Threads → Threads) (ns : Namespace)
    (infos : ℕ → Option ThreadInfo) (own : LocalNs) (out : own.counter ≡ 0)
    (c : Course q now others ns.version) (begins : c.states 0 ≡ (ns, infos)) (fuel : ℕ)
    (ranges : Slots) where
  -- Among readers that come and go between the rounds, in a course of states in each of which the
  -- ranges can be gathered, `lrcu_synchronize_ns` of a caller in no section never fails. When it
  -- returns, every thread of `threads` was, as its last round began, in no section or in one that it
  -- entered after the version at the call.
  pub synchronize_ns-Ends :
      Ends c.states ns.version (synchronize_ns q now others fuel ranges ns infos (some own))
  unfolding synchronize_ns
  synchronize_ns-Ends = rw out (
      subst
        (λ (st : Threads).
          Ends c.states ns.version (sync_rounds q now others fuel 0 ns.version ranges st))
        begins (rounds-Ends q now others ns.version c fuel 0 ranges))

  -- In such a course `lrcu_synchronize_ns` returns, at the latest, with the first round that begins
  -- with a reader in `threads` and with no thread, of `threads` or `hung_threads`, in a section that
  -- began up to the version at the call; and when it returns every thread of `threads` was, as its
  -- last round began, in no section or in one that it entered after that version.
  pub synchronize_ns-EndsBy :
      (m : ℕ)
      → IsClear ns.version (c.states m)
      → m < fuel
      → EndsBy c.states ns.version m (synchronize_ns q now others fuel ranges ns infos (some own))
  unfolding synchronize_ns
  synchronize_ns-EndsBy m clear lt = rw out (
      subst
        (λ (st : Threads).
          EndsBy c.states ns.version m (sync_rounds q now others fuel 0 ns.version ranges st))
        begins
        (rounds-EndsBy q now others ns.version c m fuel 0 ranges clear (omega arith) (omega arith)))
