-- ===== src/LinkedList/Atomic.antt =====
-- include/lrcu/list.h under `LRCU_LIST_ATOMIC`: threads that insert with `lrcu_list_insert_atomic`, and
-- one that takes all elements with `lrcu_list_reset_atomic`, interleaved at each access to the head.
-- The checks for loops, which write nothing, are left out.
pub mod Invariant
pub mod Moves
pub mod Simulation
use light_rcu.Prelude.{
  ℕ, ◌≡◌, ◌≢◌, Bool, true, false, Option, none, some, ◌==◌, if◌then◌else◌, update,
}
use light_rcu.LinkedList.{Heap, elem_of}

-- Where a thread stands: before `__lrcu_list_add`, behind the allocation of an element with a value,
-- behind a read of the head, and behind `e->next = t`.
pub data InsertPc : Type 0 where
  away : InsertPc
  made : ℕ → ℕ → InsertPc
  linking swapping : ℕ → ℕ → ℕ → InsertPc

-- The thread that resets: before it, behind a read of the head, and behind the swap.
pub data ResetPc : Type 0 where
  resting : ResetPc
  taking took : ℕ → ResetPc

pub record Shared : Type 0 where
  pub heap : Heap
  pub head : ℕ
  pub pcs : ℕ → InsertPc
  pub taker : ResetPc

-- A step of thread `i`, which inserts, or of the thread that resets.
pub data AtomicStep (s : Shared) : Shared → Type 0 where
  malloc :
      (i e v : ℕ)
      → s.pcs i ≡ away
      → e ≢ 0
      → s.heap e ≡ none
      → AtomicStep s (record s {
        heap = update s.heap e (some (elem_of 0 v));
        pcs = update s.pcs i (made e v);
      })
  read_head :
      (i e v : ℕ)
      → s.pcs i ≡ made e v
      → AtomicStep s (record s { pcs = update s.pcs i (linking e v s.head) })
  link :
      (i e v t : ℕ)
      → s.pcs i ≡ linking e v t
      → AtomicStep s (record s {
        heap = update s.heap e (some (elem_of t v));
        pcs = update s.pcs i (swapping e v t);
      })
  swap_hit :
      (i e v t : ℕ)
      → s.pcs i ≡ swapping e v t
      → (s.head == t) ≡ true
      → AtomicStep s (record s { head = e; pcs = update s.pcs i away })
  swap_miss :
      (i e v t : ℕ)
      → s.pcs i ≡ swapping e v t
      → (s.head == t) ≡ false
      → AtomicStep s (record s { pcs = update s.pcs i (linking e v s.head) })
  reset_read : s.taker ≡ resting → AtomicStep s (record s { taker = taking s.head })
  reset_hit :
      (t : ℕ)
      → s.taker ≡ taking t
      → (s.head == t) ≡ true
      → AtomicStep s (record s { head = 0; taker = took t })
  reset_miss :
      (t : ℕ)
      → s.taker ≡ taking t
      → (s.head == t) ≡ false
      → AtomicStep s (record s { taker = taking s.head })
  -- The list is handed on.
  reset_end : (t : ℕ) → s.taker ≡ took t → AtomicStep s (record s { taker = resting })
