-- ===== src/Rcu/Interleave/Round.antt =====
-- src/lrcu.c: a round of `lrcu_worker` for a namespace, of Rcu/Worker, as steps of the interleaved system
-- with no other step in between. Its requests are those of `lrcu_call`.
use light_rcu.Prelude.{
  ℕ, ◌<◌, ◌≡◌, ◌≢◌, refl, sym, ◌∙◌, ap, ap₂, subst, Bool, true, false, not, ◌||◌, Bool-cases, inl,
  inr, Option, some, List, [], ◌∷◌, ◌++◌, map, ok, All, select, arith, ◌==◌, ==→eq,
}
use mathlib.Core.List.{append-nil}
use light_rcu.Qsort.{Qsort}
use light_rcu.Range.{Range, Slots}
use light_rcu.Rcu.State.{ThreadInfo, LrcuPtr, Namespace, Call}
use light_rcu.Rcu.Sync.Covers.{lns_at}
use light_rcu.Rcu.Sync.Grace.{Passed}
use light_rcu.Rcu.Worker.{reclaim, Round, ptr_call}
use light_rcu.Rcu.Worker.Reclaim.{CanReclaim, Reclaims, reclaim-Reclaims}
use light_rcu.Rcu.Interleave.{Sys, resting, splice, start, decide, finish, Reach, later, Thread}
use light_rcu.Rcu.Interleave.Pending.{All-mono}
use light_rcu.Rcu.Interleave.Safety.{Reach-Gone}
use light_rcu.Rcu.Interleave.Replace.{Steps, stay, go, shorten}
use light_rcu.Rcu.Interleave.Serve.{destroy, All-destroy, map-append, see_all, at, serve_work}

abbrev is_in : ℕ → List ℕ → Bool
is_in p [] = false
is_in p (x ∷ xs) = p == x || is_in p xs

-- The system before a round, and the namespace: the requests are the same, and each of the first `n`
-- threads is in the namespace's `threads` with the same `lns`.
pub record Mirrors (ns : Namespace) (infos : ℕ → Option ThreadInfo) (n : ℕ) (y : Sys) : Type 0 where
  pub same_free : y.free_list ≡ map shorten ns.free_list
  pub same_work : y.worker_list ≡ map shorten ns.worker_list
  pub rests : y.worker ≡ resting
  pub sections :
      (i : ℕ)
      → i < n
      → (p : ℕ) × (is_in p ns.threads ≡ true) × (lns_at infos ns.id p ≡ some (y.threads i).lns)

All-is_in : (P : ℕ → Type 0) (p : ℕ) (xs : List ℕ) → All P xs → is_in p xs ≡ true → P p
All-is_in P p [] h e = absurd (ground arith)
All-is_in P p (x ∷ xs) h e = elim (Bool-cases (p == x)) [
  | inl same ↦ subst P (sym (==→eq p x same)) h.0
  | inr other ↦ All-is_in P p xs h.1 (rw other at e)
]

Steps-Reach : {n : ℕ} {s t : Sys} → Reach n s → Steps n s t → Reach n t
Steps-Reach r stay = r
Steps-Reach r (go steps st) = later (Steps-Reach r steps) st

-- The system after a round: its requests are those that the round leaves, and the destructors were called
-- that the round has called. Readers and pointers are as before.
pub record Follows (round : Round) (y y' : Sys) : Type 0 where
  pub rests_again : y'.worker ≡ resting
  pub left_free : y'.free_list ≡ map shorten round.ns.free_list
  pub left_work : y'.worker_list ≡ map shorten round.ns.worker_list
  pub destroyed : y'.called ≡ destroy round.calls y.called
  pub still_threads : y'.threads ≡ y.threads
  pub still_cells : y'.cells ≡ y.cells

module _ (ns : Namespace) (infos : ℕ → Option ThreadInfo) (round : Round)
    (d : Reclaims ns infos round) (no_worker : ns.worker_hlist ≡ [])
    (no_free : ns.free_hlist ≡ []) where
  round_calls :
      round.calls
      ≡ map ptr_call (select (λ x. not (d.blocked x.version)) (ns.worker_list ++ ns.free_list))
  round_calls = d.called ∙ rw (no_worker, no_free) (append-nil _)

  round-Passed :
      (n : ℕ) (y : Sys)
      → Mirrors ns infos n y
      → All
          (λ c. (i : ℕ) → i < n → Passed c.version (some (y.threads i).lns))
          (map ptr_call (select (λ x. not (d.blocked x.version)) (ns.worker_list ++ ns.free_list)))
  round-Passed n y m =
      let Q : Call → Type 0 = λ c. (i : ℕ) → i < n → Passed c.version (some (y.threads i).lns) in
      subst (All Q) round_calls (
        All-mono (λ c. All (λ p. Passed c.version (lns_at infos ns.id p)) ns.threads) Q round.calls
          (λ c h i l.
            let (p, listed, same) = m.sections i l in
            subst (Passed c.version) same
              (All-is_in (λ k. Passed c.version (lns_at infos ns.id k)) p ns.threads h listed))
          d.grace)

  round-Follows :
      (n : ℕ) (y : Sys) → Mirrors ns infos n y → (y' : Sys) × Steps n y y' × Follows round y y'
  round-Follows n y m =
      let r1 : Steps n y _ = go stay (splice m.rests) in
      let r2 = go r1 (start refl) in
      let s = record y { worker_list = y.worker_list ++ y.free_list; free_list = [] } in
      let (vs, cs, r3, copies) = see_all n y s y.version n r2 in
      let r4 = go r3 (decide y.version refl (λ i l. (_, _, (copies i l).0, (copies i l).1))) in
      let t = record s { seen_version = vs; seen_counter = cs } in
      let work : y.worker_list ++ y.free_list ≡ map shorten (ns.worker_list ++ ns.free_list) =
        ap₂ (λ a b. a ++ b) m.same_work m.same_free ∙ map-append ns.worker_list ns.free_list in
      let r5 =
        subst (λ (k : List LrcuPtr). Steps n y (at n y t y.version d.blocked copies k [] y.called))
          work r4 in
      let r6 =
        serve_work n y t y.version d.blocked copies (ns.worker_list ++ ns.free_list) [] y.called
          (round-Passed n y m) r5 in
      let r7 = go r6 (finish y.version _ refl refl) in
      (
        _,
        r7,
        record {
          rests_again = refl;
          left_free = sym (ap (map shorten) d.drained);
          left_work = sym (ap (map shorten) d.kept);
          destroyed = ap (λ cs. destroy cs y.called) (sym round_calls);
          still_threads = refl;
          still_cells = refl;
        },
      )

module _ (q : Qsort Range) (now : ℕ → ℕ) (ranges : Slots) (ns : Namespace)
    (infos : ℕ → Option ThreadInfo) (h : CanReclaim ns infos) (no_worker : ns.worker_hlist ≡ [])
    (no_free : ns.free_hlist ≡ []) (n : ℕ) (y : Sys) (m : Mirrors ns infos n y) where
  -- Where no other thread runs during the round, `CanReclaim` holds (which bounds the lists of requests)
  -- and there are no requests of `lrcu_call_head`, the part of a round that
  -- collects and serves requests ends normally, and a system that mirrors the namespace (the same
  -- requests, a worker that rests, and threads that are in the namespace with the same `lns`) can take
  -- steps to one that follows the round: the worker rests again, the requests are those that the round
  -- leaves, in the same order, exactly the destructors of the round's calls were called, and threads and
  -- protected pointers are as before.
  pub reclaim-Steps :
      (round : Round) × (reclaim q now ranges ns infos ≡ ok round)
      × (y' : Sys) × Steps n y y'
      × Follows round y y'
  reclaim-Steps =
      let (round, runs, d) = reclaim-Reclaims q now ranges ns infos h in
      let (y', steps, follows) = round-Follows ns infos round d no_worker no_free n y m in
      (round, runs, y', steps, follows)

  -- In a system in which `ns->version++` is one step, the version does not wrap and the worker takes no
  -- thread to hang: where no other thread runs during the round, `CanReclaim` holds (which bounds the
  -- lists of requests), there are no requests of `lrcu_call_head`, and a system that mirrors the
  -- namespace (the same requests, a worker that rests, and threads that are in the namespace with the same
  -- `lns`) is reached from a start by interleaved steps of readers, writers and the worker, the part of a
  -- round that collects and serves requests ends normally, and each object for which it calls a destructor
  -- is held by no thread and is in no protected pointer.
  pub reclaim-Gone :
      Reach n y
      → (round : Round) × (reclaim q now ranges ns infos ≡ ok round)
        × All
            (λ c. ((i : ℕ) → (y.threads i).holds c.arg ≡ false) × ((c' : ℕ) → y.cells c' ≢ c.arg))
            round.calls
  reclaim-Gone r =
      let (round, runs, y', steps, follows) = reclaim-Steps in
      (
        round,
        runs,
        All-destroy (λ p. ((i : ℕ) → (y.threads i).holds p ≡ false) × ((c : ℕ) → y.cells c ≢ p))
            round.calls y.called
            (λ p e.
              let (unheld, off) =
                Reach-Gone (Steps-Reach r steps) p
                  (subst (λ (f : ℕ → Bool). f p ≡ true) (sym follows.destroyed) e) in
              (
                subst (λ (f : ℕ → Thread). (i : ℕ) → (f i).holds p ≡ false) follows.still_threads
                    unheld,
                subst (λ (f : ℕ → ℕ). (c : ℕ) → f c ≢ p) follows.still_cells off,
              )),
      )
