-- ===== src/LinkedList/Atomic/Moves.antt =====
-- What the steps of a thread that inserts do to the lists.
use light_rcu.Prelude.{
  ℕ, ◌≡◌, ◌≢◌, inl, inr, refl, sym, ◌∙◌, ap, false, Option, none, some, ◌∷◌, ◌==◌, update, arith,
  Bool-cases, ==→eq,
}
use light_rcu.LinkedList.{Elem, elem_of}
use light_rcu.LinkedList.Chain.{Cells, on, Chain-update}
use light_rcu.LinkedList.Insert.{update-same}
use light_rcu.LinkedList.Atomic.{InsertPc, away, made, linking, swapping, Shared}
use light_rcu.LinkedList.Atomic.Invariant.{
  owner, Owns, Holds, Chain-free, Owns-update, Owns-free, Owns-lists,
}

module _ (s : Shared) (xs ys : Cells) (inv : Holds s xs ys) (i : ℕ) where
  -- Thread `i` goes on with the same element.
  single-same :
      (p : InsertPc)
      → owner p ≡ owner (s.pcs i)
      → (j k : ℕ) → owner (update s.pcs i p j) ≢ 0
      → owner (update s.pcs i p j) ≡ owner (update s.pcs i p k)
      → j ≡ k
  single-same p e j k ne eq =
      let same : (l : ℕ) → owner (update s.pcs i p l) ≡ owner (s.pcs l) = λ l.
        elim (Bool-cases (l == i)) [
          | inl here ↦ rw here (e ∙ ap (λ (x : ℕ). owner (s.pcs x)) (sym (==→eq l i here)))
          | inr there ↦ rw there refl
        ] in
      inv.single j k (rw (same j) at ne) (sym (same j) ∙ eq ∙ same k)

  -- The same with no write to the heap.
  pub keep_Holds :
      (p : InsertPc)
      → owner p ≡ owner (s.pcs i)
      → Owns s.heap xs ys p
      → Holds (record s { pcs = update s.pcs i p }) xs ys
  keep_Holds p e o = record {
    head_ok = inv.head_ok;
    stack = inv.stack;
    batch = inv.batch;
    apart = inv.apart;
    taker_ok = inv.taker_ok;
    owned = λ j. elim (Bool-cases (j == i)) [
      | inl here ↦ rw here o
      | inr there ↦ rw there (inv.owned j)
    ];
    single = single-same p e;
  }

  others-differ :
      (e : ℕ)
      → e ≡ owner (s.pcs i)
      → e ≢ 0
      → (j : ℕ) → (j == i) ≡ false
      → (owner (s.pcs j) == e) ≡ false
  others-differ e own ne j there = elim (Bool-cases (owner (s.pcs j) == e)) [
    | inl eq ↦
        let q = ==→eq (owner (s.pcs j)) e eq in
        let z = inv.single j i (λ k. ne (sym q ∙ k)) (q ∙ own) in ground arith
    | inr ne' ↦ ne'
  ]

  -- A write to an element that is on no list and that no other thread has.
  writes :
      (e : ℕ) (x : Option Elem) (p : InsertPc)
      → on e xs ≡ false
      → on e ys ≡ false
      → ((j : ℕ) → (j == i) ≡ false → (owner (s.pcs j) == e) ≡ false)
      → Owns (update s.heap e x) xs ys p
      → ((j k : ℕ)
          → owner (update s.pcs i p j) ≢ 0
          → owner (update s.pcs i p j) ≡ owner (update s.pcs i p k)
          → j ≡ k)
      → Holds (record s { heap = update s.heap e x; pcs = update s.pcs i p }) xs ys
  writes e x p offx offy differ o single' = record {
    head_ok = inv.head_ok;
    stack = Chain-update s.heap xs 0 e x inv.stack offx;
    batch = Chain-update s.heap ys 0 e x inv.batch offy;
    apart = inv.apart;
    taker_ok = inv.taker_ok;
    owned = λ j. elim (Bool-cases (j == i)) [
      | inl here ↦ rw here o
      | inr there ↦ rw there (Owns-update s.heap xs ys (s.pcs j) e x (inv.owned j) (differ j there))
    ];
    single = single';
  }

  single-fresh :
      (e v : ℕ)
      → ((j : ℕ) → (owner (s.pcs j) == e) ≡ false)
      → (j k : ℕ) → owner (update s.pcs i (made e v) j) ≢ 0
      → owner (update s.pcs i (made e v) j) ≡ owner (update s.pcs i (made e v) k)
      → j ≡ k
  single-fresh e v fresh j k = elim (Bool-cases (j == i)) [
    | inl a ↦ elim (Bool-cases (k == i)) [
      | inl b ↦ λ ne eq. ==→eq j i a ∙ sym (==→eq k i b)
      | inr b ↦ rw (a, b) (λ ne eq. ground (arith, fresh k))
    ]
    | inr a ↦ elim (Bool-cases (k == i)) [
      | inl b ↦ rw (a, b) (λ ne eq. ground (arith, fresh j))
      | inr b ↦ rw (a, b) (inv.single j k)
    ]
  ]

  single-away :
      (j k : ℕ)
      → owner (update s.pcs i away j) ≢ 0
      → owner (update s.pcs i away j) ≡ owner (update s.pcs i away k)
      → j ≡ k
  single-away j k = elim (Bool-cases (j == i)) [
    | inl a ↦ rw a (λ ne eq. absurd (ne refl))
    | inr a ↦ elim (Bool-cases (k == i)) [
      | inl b ↦ rw (a, b) (λ ne eq. absurd (ne eq))
      | inr b ↦ rw (a, b) (inv.single j k)
    ]
  ]

  pub malloc_Holds :
      (e v : ℕ)
      → e ≢ 0
      → s.heap e ≡ none
      → Holds
          (record s {
            heap = update s.heap e (some (elem_of 0 v));
            pcs = update s.pcs i (made e v);
          })
          xs
          ys
  malloc_Holds e v ne z =
      let offx = Chain-free s.heap xs 0 e inv.stack z in
      let offy = Chain-free s.heap ys 0 e inv.batch z in
      let fresh : (j : ℕ) → (owner (s.pcs j) == e) ≡ false =
        λ j. Owns-free s.heap xs ys (s.pcs j) e (inv.owned j) ne z in
      writes e (some (elem_of 0 v)) (made e v) offx offy (λ j there. fresh j)
        (ne, update-same s.heap e (some (elem_of 0 v)), offx, offy) (single-fresh e v fresh)

  pub link_Holds :
      (e v t : ℕ)
      → s.pcs i ≡ linking e v t
      → Holds
          (record s {
            heap = update s.heap e (some (elem_of t v));
            pcs = update s.pcs i (swapping e v t);
          })
          xs
          ys
  link_Holds e v t at =
      let o : Owns s.heap xs ys (linking e v t) = rw at at (inv.owned i) in
      let own : e ≡ owner (s.pcs i) = rw at refl in
      writes e (some (elem_of t v)) (swapping e v t) o.1.2 o.1.3 (others-differ e own o.1.0)
        (o.1.0, update-same s.heap e (some (elem_of t v)), o.1.2, o.1.3)
        (single-same (swapping e v t) own)

  pub hit_Holds :
      (e v t : ℕ)
      → s.pcs i ≡ swapping e v t
      → s.head ≡ t
      → Holds (record s { head = e; pcs = update s.pcs i away }) ((e, v) ∷ xs) ys
  hit_Holds e v t at hit =
      let o : Owns s.heap xs ys (swapping e v t) = rw at at (inv.owned i) in
      let own : e ≡ owner (s.pcs i) = rw at refl in
      record {
        head_ok = refl;
        stack = (o.0, rw (sym inv.head_ok ∙ hit) (o.1), o.2, inv.stack);
        batch = inv.batch;
        apart = λ a k. elim (Bool-cases (a == e)) [
          | inl same ↦ rw (==→eq a e same) (o.3)
          | inr other ↦ inv.apart a (ground arith)
        ];
        taker_ok = inv.taker_ok;
        owned = λ j. elim (Bool-cases (j == i)) [
          | inl here ↦ rw here tt
          | inr there ↦ rw there (
              Owns-lists s.heap xs ys ((e, v) ∷ xs) ys (s.pcs j)
                (λ b q k l. ((let d = others-differ e own o.0 j there in ground arith), l))
                (inv.owned j))
        ];
        single = single-away;
      }
