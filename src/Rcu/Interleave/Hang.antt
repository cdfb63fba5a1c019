-- ===== src/Rcu/Interleave/Hang.antt =====
-- src/lrcu.c: the detection of hung threads in `__lrcu_get_synchronized`, within the interleaved system.
-- How long a thread is in a section is left open: the timeout may pass between any two rounds.
use light_rcu.Prelude.{
  ℕ, zero, suc, ◌+◌, ◌≤◌, ◌≡◌, refl, Bool, true, false, ◌||◌, some, List, [], ◌∷◌, ◌++◌, ltb, ◌==◌,
  if◌then◌else◌, update, arith,
}
use light_rcu.Rcu.State.{LrcuPtr}
use light_rcu.Rcu.Reader.{nest, leave}
use light_rcu.Rcu.Sync.Covers.{may_hold}
use light_rcu.Rcu.Interleave.{
  Sys, outside, inside, scanning, serving, copied, include, request, Step, move, count, load, store,
  deref, leave_last, barrier, lock, bump, assign, take_version, add, splice, start, see_version,
  see_counter, decide, keep, call, finish,
}
use light_rcu.Rcu.Interleave.Race.{start_at}

-- `timed` tells that `timeval` of a thread is set, `hung_version` is that of `hung_lns`, `is_hung` that
-- the thread is in `hung_threads`; `upper` is the upper end of the range added for it in this round.
pub record Watch : Type 0 where
  pub timed : ℕ → Bool
  pub hung_version : ℕ → ℕ
  pub is_hung : ℕ → Bool
  pub upper : ℕ → ℕ

-- A version in the range of one of the first `n` threads.
unfoldable pub in_range : Sys → Watch → ℕ → ℕ → Bool
in_range s w zero v = false
in_range s w (suc n) v =
    may_hold (w.upper n) (copied (s.seen_version n) (s.seen_counter n)) v || in_range s w n v

-- What `keep` and `call` of the system leave to the steps below.
abbrev pub is_choice : {n : ℕ} {s t : Sys} → Step n s t → Bool
is_choice (keep current x xs kept e list) = true
is_choice (call current x xs kept e list free) = true
is_choice _ = false

-- A step of the system, a visit of a thread whose `lns` was copied, or the service of a request.
pub data WatchStep (n : ℕ) (s : Sys) (w : Watch) : Sys → Watch → Type 0 where
  step : {t : Sys} (st : Step n s t) → is_choice st ≡ false → WatchStep n s w t w
  -- The first loop, for a thread that is in no section.
  visit_idle :
      (i current : ℕ)
      → s.worker ≡ scanning current
      → s.seen_counter i ≡ some 0
      → w.is_hung i ≡ false
      → WatchStep n s w s (record w { timed = update w.timed i false })
  -- The thread is in a section, and its time is not up.
  visit_busy :
      (i current c : ℕ)
      → s.worker ≡ scanning current
      → s.seen_counter i ≡ some (suc c)
      → w.is_hung i ≡ false
      → WatchStep n s w s (record w {
        timed = update w.timed i true;
        hung_version = update w.hung_version i current;
        upper = update w.upper i current;
      })
  -- Its time is up, and it has entered no section at a later version than that of the last visit.
  visit_late :
      (i current v c : ℕ)
      → s.worker ≡ scanning current
      → s.seen_version i ≡ some v
      → s.seen_counter i ≡ some (suc c)
      → w.is_hung i ≡ false
      → w.timed i ≡ true
      → v ≤ w.hung_version i
      → WatchStep n s w s (record w {
        hung_version = update w.hung_version i current;
        is_hung = update w.is_hung i true;
        upper = update w.upper i current;
      })
  -- The second loop, for a thread that is in no section, and for one that is.
  visit_back :
      (i current : ℕ)
      → s.worker ≡ scanning current
      → s.seen_counter i ≡ some 0
      → w.is_hung i ≡ true
      → WatchStep n s w s (record w { is_hung = update w.is_hung i false })
  visit_hung :
      (i current v c : ℕ)
      → s.worker ≡ scanning current
      → s.seen_version i ≡ some v
      → s.seen_counter i ≡ some (suc c)
      → w.is_hung i ≡ true
      → WatchStep n s w s (record w {
        is_hung = if ltb (w.hung_version i) v then update w.is_hung i false else w.is_hung;
        upper = update w.upper i (if ltb (w.hung_version i) v then current else w.hung_version i);
      })
  keep_watched :
      (current : ℕ) (x : LrcuPtr) (xs kept : List LrcuPtr)
      → s.worker ≡ serving current kept
      → s.worker_list ≡ x ∷ xs
      → in_range s w n x.version ≡ true
      → WatchStep n s w (record s { worker_list = xs; worker = serving current (kept ++ x ∷ []) }) w
  call_watched :
      (current : ℕ) (x : LrcuPtr) (xs kept : List LrcuPtr)
      → s.worker ≡ serving current kept
      → s.worker_list ≡ x ∷ xs
      → in_range s w n x.version ≡ false
      → WatchStep n s w (record s { worker_list = xs; called = include x.ptr s.called }) w

pub data WatchReach (n : ℕ) (s : Sys) (w : Watch) : Sys → Watch → Type 0 where
  begin : WatchReach n s w s w
  next :
      {t u : Sys} {x y : Watch} → WatchReach n s w t x → WatchStep n t x u y → WatchReach n s w u y

-- No thread was visited yet.
abbrev pub unwatched : Watch
unwatched = record {
  timed = λ i. false;
  hung_version = λ i. 0;
  is_hung = λ i. false;
  upper = λ i. 0;
}

-- The reader is in a section with the object 0, whose request waits, and two rounds of the worker have
-- found it to hang; it then leaves the section.
unfoldable hung_out :
    (v : ℕ)
    → (m : Sys) × (w : Watch) × (WatchReach 1 (start_at v) unwatched m w)
      × (w.is_hung 0 ≡ true)
      × ((m.threads 0).pc ≡ outside)
unfolding nest leave in_range
hung_out v =
    let r0 : WatchReach 1 (start_at v) unwatched (start_at v) unwatched = begin in
    let r1 = next r0 (step (move 0 _ (omega arith) (count refl)) refl) in
    let r2 = next r1 (step (move 0 _ (omega arith) (load refl)) refl) in
    let r3 = next r2 (step (move 0 _ (omega arith) (store v refl)) refl) in
    let r4 = next r3 (step (move 0 _ (omega arith) (deref 0 refl)) refl) in
    let r5 = next r4 (step (lock 0 refl) refl) in
    let r6 = next r5 (step (bump 0 0 1 refl refl refl) refl) in
    let r7 = next r6 (step (assign 0 0 1 refl) refl) in
    let r8 = next r7 (step (take_version 0 0 refl) refl) in
    let r9 = next r8 (step (add 0 0 (v + 1) refl) refl) in
    let r10 = next r9 (step (splice refl) refl) in
    let r11 = next r10 (step (start refl) refl) in
    let r12 = next r11 (step (see_version 0 (v + 1) refl) refl) in
    let r13 = next r12 (step (see_counter 0 (v + 1) refl) refl) in
    let r14 = next r13 (visit_busy 0 (v + 1) 0 refl refl refl) in
    let r15 = next r14 (
      step
        (decide (v + 1) refl
          (λ i l. let e : (i == 0) ≡ true = ground arith in (v, 1, rw e refl, rw e refl)))
        refl) in
    let r16 = next r15 (keep_watched (v + 1) (request 0 (v + 1)) [] [] refl refl (ground arith)) in
    let r17 = next r16 (step (finish (v + 1) (request 0 (v + 1) ∷ []) refl refl) refl) in
    let r18 = next r17 (step barrier refl) in
    let r19 = next r18 (step (splice refl) refl) in
    let r20 = next r19 (step (start refl) refl) in
    let r21 = next r20 (step (see_version 0 (v + 1 + 1) refl) refl) in
    let r22 = next r21 (step (see_counter 0 (v + 1 + 1) refl) refl) in
    let r23 = next r22 (visit_late 0 (v + 1 + 1) v 0 refl refl refl refl refl (omega arith)) in
    let r24 = next r23 (visit_hung 0 (v + 1 + 1) v 0 refl refl refl refl) in
    let r25 = next r24 (step (move 0 _ (omega arith) (leave_last refl refl)) refl) in
    (_, _, r25, ground arith, refl)

-- From a start at any version, with one reader and one writer: a state can be reached in which the
-- worker takes the thread to hang and the thread has left its section; and from there, with a section
-- that the thread enters after that, a state in which it holds an object whose destructor was called. As
-- it entered the section at the version of the worker's last visit, the worker still adds a range for it
-- that ends there.
pub hang-breaks :
    (v : ℕ)
    → (m : Sys) × (w : Watch) × (WatchReach 1 (start_at v) unwatched m w)
      × (w.is_hung 0 ≡ true)
      × ((m.threads 0).pc ≡ outside)
      × (t : Sys) × (w' : Watch) × (WatchReach 1 m w t w')
      × ((t.threads 0).pc ≡ inside)
      × (t.called 1 ≡ true)
      × ((t.threads 0).holds 1 ≡ true)
unfolding hung_out nest leave in_range
hang-breaks v =
    let m = (hung_out v).0 in
    let w = (hung_out v).1 in
    let r0 : WatchReach 1 m w m w = begin in
    let r1 = next r0 (step (move 0 _ (omega arith) (count refl)) refl) in
    let r2 = next r1 (step (move 0 _ (omega arith) (load refl)) refl) in
    let r3 = next r2 (step (move 0 _ (omega arith) (store (v + 1 + 1) refl)) refl) in
    let r4 = next r3 (step (move 0 _ (omega arith) (deref 0 refl)) refl) in
    let r5 = next r4 (
      step
        (decide (v + 1 + 1) refl
          (λ i l. let e : (i == 0) ≡ true = ground arith in (v, 1, rw e refl, rw e refl)))
        refl) in
    let r6 =
      next r5 (keep_watched (v + 1 + 1) (request 0 (v + 1)) [] [] refl refl (ground arith)) in
    let r7 = next r6 (step (finish (v + 1 + 1) (request 0 (v + 1) ∷ []) refl refl) refl) in
    let r8 = next r7 (step barrier refl) in
    let r9 = next r8 (step (bump 0 0 3 refl refl refl) refl) in
    let r10 = next r9 (step (assign 0 0 3 refl) refl) in
    let r11 = next r10 (step (take_version 0 1 refl) refl) in
    let r12 = next r11 (step (add 0 1 (v + 1 + 1 + 1 + 1) refl) refl) in
    let r13 = next r12 (step (splice refl) refl) in
    let r14 = next r13 (step (start refl) refl) in
    let r15 = next r14 (step (see_version 0 (v + 1 + 1 + 1 + 1) refl) refl) in
    let r16 = next r15 (step (see_counter 0 (v + 1 + 1 + 1 + 1) refl) refl) in
    let r17 =
      next r16 (visit_hung 0 (v + 1 + 1 + 1 + 1) (v + 1 + 1) 0 refl refl refl (ground arith)) in
    let r18 = next r17 (
      step
        (decide (v + 1 + 1 + 1 + 1) refl
          (λ i l. let e : (i == 0) ≡ true = ground arith in (v + 1 + 1, 1, rw e refl, rw e refl)))
        refl) in
    let r19 = next r18 (
      call_watched (v + 1 + 1 + 1 + 1) (request 0 (v + 1)) (request 1 (v + 1 + 1 + 1 + 1) ∷ []) []
        refl refl (ground arith)) in
    let r20 = next r19 (
      call_watched (v + 1 + 1 + 1 + 1) (request 1 (v + 1 + 1 + 1 + 1)) [] [] refl refl
        (ground arith)) in
    (m, w, (hung_out v).2, ground arith, refl, _, _, r20, refl, refl, refl)
