-- ===== src/LinkedList/Atomic/Simulation.antt =====
-- Each step of threads that insert and of one that resets is a step of a stack and of a batch.
use light_rcu.Prelude.{ℕ, ◌≡◌, refl, sym, ◌∙◌, [], ◌∷◌, arith, ==→eq}
use light_rcu.LinkedList.Chain.{Cells}
use light_rcu.LinkedList.Atomic.{
  made, linking, swapping, resting, taking, took, Shared, AtomicStep, malloc, read_head, link,
  swap_hit, swap_miss, reset_read, reset_hit, reset_miss, reset_end,
}
use light_rcu.LinkedList.Atomic.Invariant.{Owns, Batch, Holds, Owns-lists}
use light_rcu.LinkedList.Atomic.Moves.{keep_Holds, malloc_Holds, link_Holds, hit_Holds}

-- What a step does to the stack and to the batch that was taken.
pub data StackStep (xs ys : Cells) : Cells → Cells → Type 0 where
  stays : StackStep xs ys xs ys
  pushes : (e v : ℕ) → StackStep xs ys ((e, v) ∷ xs) ys
  takes : ys ≡ [] → StackStep xs ys [] xs
  hands_on : StackStep xs ys xs []

abbrev pub Simulates : Shared → Cells → Cells → Type 0
Simulates s xs ys = (us : Cells) × (vs : Cells) × Holds s us vs × StackStep xs ys us vs

module _ (s : Shared) (xs ys : Cells) (inv : Holds s xs ys) where
  -- The thread that resets goes on, with nothing taken.
  reads_Holds : (t : ℕ) → ys ≡ [] → Holds (record s { taker = taking t }) xs ys
  reads_Holds t e = record {
    head_ok = inv.head_ok;
    stack = inv.stack;
    batch = inv.batch;
    apart = inv.apart;
    taker_ok = e;
    owned = inv.owned;
    single = inv.single;
  }

  takes_Holds : (t : ℕ) → s.head ≡ t → Holds (record s { head = 0; taker = took t }) [] xs
  takes_Holds t hit = record {
    head_ok = refl;
    stack = tt;
    batch = inv.stack;
    apart = λ a k. ground arith;
    taker_ok = sym hit ∙ inv.head_ok;
    owned = λ j. Owns-lists s.heap xs ys [] xs (s.pcs j) (λ b q k l. (refl, k)) (inv.owned j);
    single = inv.single;
  }

  ends_Holds : Holds (record s { taker = resting }) xs []
  ends_Holds = record {
    head_ok = inv.head_ok;
    stack = inv.stack;
    batch = tt;
    apart = λ a k. refl;
    taker_ok = refl;
    owned = λ j. Owns-lists s.heap xs ys xs [] (s.pcs j) (λ b q k l. (k, refl)) (inv.owned j);
    single = inv.single;
  }

-- Among any number of threads in `lrcu_list_insert_atomic` and one in `lrcu_list_reset_atomic`, the
-- head is always that of a list of different elements, and each step leaves the list as it is, puts
-- one element in front, or takes all elements as a batch, which then stays as it is until it is
-- handed on. So no element is lost or taken twice.
pub AtomicStep-Simulates :
    {s s' : Shared} (xs ys : Cells) → Holds s xs ys → AtomicStep s s' → Simulates s' xs ys
AtomicStep-Simulates {s} xs ys inv (malloc i e v at ne free) =
    (xs, ys, malloc_Holds s xs ys inv i e v ne free, stays)
AtomicStep-Simulates {s} xs ys inv (read_head i e v at) =
    let o : Owns s.heap xs ys (made e v) = rw at at (inv.owned i) in
    (xs, ys, keep_Holds s xs ys inv i (linking e v s.head) (rw at refl) (0, o), stays)
AtomicStep-Simulates {s} xs ys inv (link i e v t at) =
    (xs, ys, link_Holds s xs ys inv i e v t at, stays)
AtomicStep-Simulates {s} xs ys inv (swap_hit i e v t at hit) =
    ((e, v) ∷ xs, ys, hit_Holds s xs ys inv i e v t at (==→eq s.head t hit), pushes e v)
AtomicStep-Simulates {s} xs ys inv (swap_miss i e v t at miss) =
    let o : Owns s.heap xs ys (swapping e v t) = rw at at (inv.owned i) in
    (xs, ys, keep_Holds s xs ys inv i (linking e v s.head) (rw at refl) (t, o), stays)
AtomicStep-Simulates {s} xs ys inv (reset_read at) =
    let b : Batch resting ys = rw at at (inv.taker_ok) in
    (xs, ys, reads_Holds s xs ys inv s.head b, stays)
AtomicStep-Simulates {s} xs ys inv (reset_hit t at hit) =
    let b : Batch (taking t) ys = rw at at (inv.taker_ok) in
    ([], xs, takes_Holds s xs ys inv t (==→eq s.head t hit), takes b)
AtomicStep-Simulates {s} xs ys inv (reset_miss t at miss) =
    let b : Batch (taking t) ys = rw at at (inv.taker_ok) in
    (xs, ys, reads_Holds s xs ys inv s.head b, stays)
AtomicStep-Simulates {s} xs ys inv (reset_end t at) = (xs, [], ends_Holds s xs ys inv, hands_on)
