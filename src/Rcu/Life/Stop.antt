-- ===== src/Rcu/Life/Stop.antt =====
-- The end of the worker.
use light_rcu.Prelude.{
  ℕ, zero, suc, ◌+◌, ◌≤◌, ◌<◌, ◌≡◌, inl, inr, refl, sym, Bool, true, false, ◌||◌, none, some, ◌==◌,
  update, ltb, lt→ltb, ok, assert_failed, arith, ap, subst, Bool-cases,
}
use light_rcu.Qsort.{Qsort}
use light_rcu.Range.{Range, Slots}
use light_rcu.Spinlock.{spin_unlock}
use light_rcu.Spinlock.Word.{IsFree, taken, spin_lock-free, spin_unlock-IsFree}
use light_rcu.Rcu.State.{ThreadInfo, Handler, World, M, ◌>>◌, stop}
use light_rcu.Rcu.Cycle.{pass_all}
use light_rcu.Rcu.Admin.{
  new_info, lock_handler, thread_deinit, thread_destructor, remove_from_all, thread_remove_from_ns,
}
use light_rcu.Rcu.Admin.Creation.{world_unlocked, ns_init-none}
use light_rcu.Rcu.Life.{is_stop, worker_start, worker_rounds, worker_end, init, deinit, ns_default}
use light_rcu.Rcu.Life.Start.{started, started-CanMake, init_handler_lem, handler_running}

-- `lrcu_thread_deinit` in a thread whose handler exists, with a free lock, but has no namespace 0,
-- fails the assertion of `thread_remove_from_ns`: the loop of `thread_destructor_callback` starts at
-- 0, whichever namespaces the thread was in.
pub thread_deinit-fails :
    (w : World) (me t hp n : ℕ) (ti : ThreadInfo) (h : Handler)
    → w.tls me ≡ some t
    → w.infos t ≡ some ti
    → ti.h ≡ hp
    → w.handlers hp ≡ some h
    → IsFree h.ns_lock
    → w.ns_max ≡ suc n
    → h.worker_ns 0 ≡ none
    → thread_deinit me w ≡ assert_failed
unfolding thread_deinit thread_destructor lock_handler remove_from_all thread_remove_from_ns
thread_deinit-fails w me t hp n ti h has_t has_ti of_h has_h free several no_ns =
    let same : (hp == hp) ≡ true = ground arith in
    let fits : ltb 0 (suc n) ≡ true = lt→ltb 0 (suc n) (omega arith) in
    rw (has_t, has_ti, of_h, has_h, spin_lock-free h.ns_lock free)
      (rw several (rw (remove_from_all, has_ti, of_h, same) (rw (fits, no_ns) refl)))

module _ (q : Qsort Range) (now : ℕ → ℕ → ℕ) (should_stop : ℕ → Bool) (sleep : ℕ → M (Unit {0}))
    (worker hp : ℕ) where
  -- The passes of the worker over the namespaces, each with the sleep behind it, up to round `m`.
  pub record Passing (m : ℕ) : Type 0 where
    pub worlds : ℕ → World
    pub during : ℕ → World
    pub handler : ℕ → Handler
    pub ranges : ℕ → Slots
    pub handlers_eq : (j : ℕ) → j ≤ m → (worlds j).handlers hp ≡ some (handler j)
    pub passes :
        (j : ℕ)
        → j < m
        → pass_all q (now j) hp (worlds j).ns_max 0 (ranges j) (worlds j)
          ≡ ok (ranges (suc j), during j)
    pub sleeps : (j : ℕ) → j < m → sleep j (during j) ≡ ok (tt, worlds (suc j))

  module _ (m : ℕ) (r : Passing m) where
    abbrev pub ends : ℕ → Bool
    ends j = is_stop (r.handler j).worker_state || should_stop j

    rounds_from :
        (fuel k : ℕ)
        → ((j : ℕ) → j < m → ends j ≡ false)
        → ends m ≡ true
        → k ≤ m
        → m < k + fuel
        → worker_rounds q now should_stop sleep worker hp fuel k (r.ranges k) (r.worlds k)
          ≡ ok (tt, r.worlds m)
    unfolding worker_rounds
    rounds_from zero k before end le lt = ground arith
    rounds_from (suc fuel) k before end le lt =
        let a = r.handlers_eq k le in
        elim (Bool-cases (k == m)) [
          | inl same ↦
              let e : k ≡ m = ground arith in
              let z : ends k ≡ true = subst (λ (x : ℕ). ends x ≡ true) (sym e) end in
              rw (a, z) (ap (λ (x : ℕ). ok (tt, r.worlds x)) e)
          | inr other ↦
              let l : k < m = ground arith in
              let n : k + 1 ≡ suc k = omega arith in
              rw (a, before k l, r.passes k l, r.sleeps k l, n)
                (rounds_from fuel (suc k) before end (omega arith) (omega arith))
        ]

    -- Where the passes end normally, the loop of `lrcu_worker` ends at the first round before which
    -- the state is `LRCU_WORKER_STOP` or the platform tells the thread to stop, behind the passes of
    -- all rounds before.
    pub worker_rounds_lem :
        (fuel : ℕ)
        → ((j : ℕ) → j < m → ends j ≡ false)
        → ends m ≡ true
        → m < fuel
        → worker_rounds q now should_stop sleep worker hp fuel 0 (r.ranges 0) (r.worlds 0)
          ≡ ok (tt, r.worlds m)
    worker_rounds_lem fuel before end lt = rounds_from fuel 0 before end (omega arith) (omega arith)

module _ (w : World) (hp worker t n : ℕ) (several : w.ns_max ≡ suc n) where
  abbrev fits_default : 0 < w.ns_max
  fits_default = omega arith

  -- The store after `lrcu_ns_init` has found no memory and `lrcu_deinit` has told the worker to stop.
  abbrev stopping : World
  stopping =
      let u =
        world_unlocked (started w hp worker t) ns_default
          (started-CanMake w hp worker t fits_default) 0 in
      let l = spin_unlock (taken (handler_running w hp worker t).ns_lock) in
      record u {
        handlers =
            update u.handlers hp
              (some (record (handler_running w hp worker t) { ns_lock = l; worker_state = stop }));
      }

  stopping-fails : thread_deinit worker stopping ≡ assert_failed
  unfolding new_info
  stopping-fails =
      let same : (hp == hp) ≡ true = ground arith in
      let me : (worker == worker) ≡ true = ground arith in
      let mine : (t == t) ≡ true = ground arith in
      let l = spin_unlock (taken (handler_running w hp worker t).ns_lock) in
      thread_deinit-fails stopping worker t hp n (new_info hp)
        (record (handler_running w hp worker t) { ns_lock = l; worker_state = stop }) (rw me refl)
        (rw mine refl) refl (rw same refl)
        (spin_unlock-IsFree (handler_running w hp worker t).ns_lock refl) several refl

  -- Where the worker has started but `lrcu_ns_init` gets no memory, `lrcu_init` does not return
  -- `NULL`: it tells the worker to stop, and the worker, which has no namespace, fails the assertion
  -- of `thread_remove_from_ns` on its way out.
  pub init-fails :
      (q : Qsort Range) (now : ℕ → ℕ → ℕ) (should_stop : ℕ → Bool) (sleep : ℕ → M (Unit {0}))
      (fuel rounds k : ℕ) (ranges : Slots) (got_element : Bool)
      → init
          (λ j. worker_start worker hp (some t))
          (do
            worker_rounds q now should_stop sleep worker hp (suc rounds) k ranges
            worker_end worker hp)
          (suc (suc fuel))
          (some hp)
          true
          none
          got_element
          w
        ≡ assert_failed
  unfolding init deinit worker_end worker_rounds
  init-fails q now should_stop sleep fuel rounds k ranges got_element =
      let same : (hp == hp) ≡ true = ground arith in
      let c = started-CanMake w hp worker t fits_default in
      let i = init_handler_lem w hp worker t fuel in
      let m = ns_init-none (started w hp worker t) ns_default c 0 got_element in
      rw (i, m) (rw same (rw same (rw (stopping-fails) refl)))
