-- ===== src/Rcu/Sync/Wait.antt =====
-- `lrcu_synchronize_ns` when no thread is in a read section.
use light_rcu.Prelude.{
  ℕ, zero, suc, ◌+◌, ◌<◌, ◌≡◌, refl, sym, ◌∙◌, ap, subst, true, false, Option, some, ok,
  out_of_fuel, arith,
}
use light_rcu.Qsort.{Qsort}
use light_rcu.Range.{Range, Slots, find, empty_value}
use light_rcu.Range.Spec.{contains}
use light_rcu.Range.Search.{find-empty}
use light_rcu.Spinlock.Word.{IsFree}
use light_rcu.Rcu.State.{LocalNs, ThreadInfo, Namespace}
use light_rcu.Rcu.Sync.{sync_rounds, synchronize_ns, Synchronized, threads_max}
use light_rcu.Rcu.Sync.Idle.{AllIdle, Emptied, get_synchronized-Emptied}

-- No thread of the namespace is in a section, and its lock is free.
pub record Resting (ns : Namespace) (infos : ℕ → Option ThreadInfo) : Type 0 where
  pub lock_free : IsFree ns.threads_lock
  pub small : ns.version < empty_value
  pub idle : AllIdle infos ns.id ns.threads
  pub hung_idle : AllIdle infos ns.id ns.hung_threads

-- What the other threads do while the caller sleeps.
abbrev pub Others : Type 0
Others = ℕ → Namespace × (ℕ → Option ThreadInfo) → Namespace × (ℕ → Option ThreadInfo)

-- They may do anything but be seen in a section.
abbrev pub KeepResting : Others → Type 0
KeepResting others =
    (k : ℕ) (st : Namespace × (ℕ → Option ThreadInfo))
    → Resting st.0 st.1
    → Resting (others k st).0 (others k st).1

module _ (q : Qsort Range) (ranges : Slots) where
  pub Emptied-Resting :
      (now : ℕ → ℕ) (ns : Namespace) (infos : ℕ → Option ThreadInfo) (out : Synchronized)
      → ns.version < empty_value
      → Emptied q now ns infos ranges threads_max out
      → Resting out.ns out.infos
  Emptied-Resting now ns infos out small d =
      let same_id = ap (λ (n : Namespace). n.id) d.frame in
      let same_version = ap (λ (n : Namespace). n.version) d.frame in
      record {
        lock_free = d.lock_free;
        small = omega arith;
        idle = subst (λ (i : ℕ). AllIdle out.infos i out.ns.threads) (sym same_id) d.threads_idle;
        hung_idle = subst (AllIdle out.infos out.ns.id) (sym d.none_hung) tt;
      }

  pub find-Emptied :
      (now : ℕ → ℕ) (ns : Namespace) (infos : ℕ → Option ThreadInfo) (out : Synchronized) (v : ℕ)
      → Emptied q now ns infos ranges threads_max out
      → find out.tree v ≡ ok (contains (ranges 0) v)
  find-Emptied now ns infos out v d =
      find-empty out.tree v d.no_ranges (omega (arith, d.same_capacity))
      ∙ ap (λ (r : Slots). ok (contains (r 0) v)) d.same_array

  module _ (now : ℕ → ℕ → ℕ) (others : Others) (current : ℕ) where
    sync_rounds-stuck :
        (fuel k : ℕ) (st : Namespace × (ℕ → Option ThreadInfo))
        → KeepResting others
        → Resting st.0 st.1
        → contains (ranges 0) current ≡ true
        → sync_rounds q now others fuel k current ranges st ≡ out_of_fuel
    unfolding sync_rounds
    sync_rounds-stuck zero k (ns, infos) keep h stale = refl
    sync_rounds-stuck (suc fuel) k (ns, infos) keep h stale =
        let (s, runs, d) =
          get_synchronized-Emptied q (now k) ns infos ranges threads_max h.lock_free h.small h.idle
            h.hung_idle in
        rw runs (
          rw (find-Emptied (now k) ns infos s current d) (
            rw stale (
              rw d.same_array (
                sync_rounds-stuck fuel (k + 1) (others k (s.ns, s.infos)) keep
                  (keep k (s.ns, s.infos) (Emptied-Resting (now k) ns infos s h.small d)) stale))))

    sync_rounds-clean :
        (fuel k : ℕ) (ns : Namespace) (infos : ℕ → Option ThreadInfo)
        → Resting ns infos
        → contains (ranges 0) current ≡ false
        → (s : Synchronized) × (sync_rounds q now others (suc fuel) k current ranges (ns, infos)
            ≡ ok (k, s))
          × (s.tree.len ≡ 0)
    unfolding sync_rounds
    sync_rounds-clean fuel k ns infos h clean =
        let (s, runs, d) =
          get_synchronized-Emptied q (now k) ns infos ranges threads_max h.lock_free h.small h.idle
            h.hung_idle in
        (s, rw runs (rw (find-Emptied (now k) ns infos s current d) (rw clean refl)), d.no_ranges)

  module _ (now : ℕ → ℕ → ℕ) (others : Others) (ns : Namespace) (infos : ℕ → Option ThreadInfo)
      (own : LocalNs) (out : own.counter ≡ 0) (h : Resting ns infos) where
    -- If the caller is in no section, no thread is in a read section and the lock is free, and slot
    -- 0 of the uninitialised array does not contain the present version, then `lrcu_synchronize_ns`
    -- returns in its first round, with no range.
    pub synchronize_ns-clean :
        contains (ranges 0) ns.version ≡ false
        → (fuel : ℕ)
        → (s : Synchronized) × (synchronize_ns q now others (suc fuel) ranges ns infos (some own)
            ≡ ok (0, s))
          × (s.tree.len ≡ 0)
    unfolding synchronize_ns
    synchronize_ns-clean clean fuel =
        let (s, runs, e) = sync_rounds-clean now others ns.version fuel 0 ns infos h clean in
        (s, rw out runs, e)

    -- If the caller is in no section, no thread is in a read section and the lock is free, and slot
    -- 0 of the uninitialised array contains the present version, then `lrcu_synchronize_ns` does
    -- not return in any number of rounds, as long as what the others do in between keeps all
    -- threads out of sections whenever it looks.
    pub synchronize_ns-stuck :
        contains (ranges 0) ns.version ≡ true
        → KeepResting others
        → (fuel : ℕ) → synchronize_ns q now others fuel ranges ns infos (some own) ≡ out_of_fuel
    unfolding synchronize_ns
    synchronize_ns-stuck stale keep fuel =
        rw out (sync_rounds-stuck now others ns.version fuel 0 (ns, infos) keep h stale)
