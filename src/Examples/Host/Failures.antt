-- ===== src/Examples/Host/Failures.antt =====
-- What `run_test` leaves where a thread is not created.
use light_rcu.Prelude.{
  ℕ, zero, suc, ◌+◌, ◌-◌, ◌≤◌, ◌<◌, ◌≡◌, refl, Bool, true, false, Bool-cases, inl, inr, Option,
  List, [], ◌∷◌, length, leb, ok, arith,
}
use light_rcu.Prelude.Commands.{Command}
use light_rcu.Rcu.Life.{thread_init_default}
use light_rcu.Examples.{Client, library}
use light_rcu.Examples.Host.{
  Role, timer_role, reader_role, writer_role, Host, failure, create_all, run_test,
}

-- `n` more threads of a kind run.
grow : Role → ℕ → List Role → List Role
grow role zero xs = xs
grow role (suc n) xs = grow role n (role ∷ xs)

length-grow : (role : Role) (n : ℕ) (xs : List Role) → length (grow role n xs) ≡ n + length xs
unfolding grow
length-grow role zero xs = omega arith
length-grow role (suc n) xs = omega (arith, length-grow role n (role ∷ xs))

module _ (created : ℕ → Bool) (role : Role) where
  create_all-ok :
      (n k : ℕ) (h : Host)
      → ((i : ℕ) → k ≤ i → i < k + n → created i ≡ true)
      → create_all created role n k h ≡ ok (true, record h { running = grow role n h.running })
  unfolding create_all grow
  create_all-ok zero k h all = refl
  create_all-ok (suc n) k h all = rw (all k (omega arith) (omega arith)) (
      create_all-ok n (k + 1) (record h { running = role ∷ h.running })
        (λ i low high. all i (omega arith) (omega arith)))

  -- The thread that fails is the `m`-th of the loop.
  create_all-fails :
      (n k m : ℕ) (h : Host)
      → m < n
      → ((i : ℕ) → k ≤ i → i < k + m → created i ≡ true)
      → created (k + m) ≡ false
      → create_all created role n k h ≡ ok (false, record h { running = grow role m h.running })
  unfolding create_all grow
  create_all-fails zero k m h l all fails = absurd (omega arith)
  create_all-fails (suc n) k zero h l all fails =
      let e : k + 0 ≡ k = omega arith in rw (rw e at fails) refl
  create_all-fails (suc n) k (suc m) h l all fails =
      let e : k + suc m ≡ k + 1 + m = omega arith in
      rw (all k (omega arith) (omega arith)) (
        create_all-fails n (k + 1) m (record h { running = role ∷ h.running }) (omega arith)
          (λ i low high. all i (omega arith) (omega arith)) (rw e at fails))

-- The function has failed, with the shared structure freed, while `f` threads run.
pub record Dangling (f : ℕ) (h : Host) : Type 0 where
  pub still_run : length h.running ≡ f
  pub structure_gone : h.has_shptr ≡ false

-- Where memory is got and `lrcu_thread_init` returns, if `f` threads were created, the timer's among
-- them, and the next one is not, then `run_test` ends normally with `EXIT_FAILURE`, and has freed the
-- structure that those threads share while all of them still run.
pub run_test-Dangling :
    (created : ℕ → Bool) (threads_run : Command Client (Unit {0})) (me : ℕ) (got_info : Option ℕ)
    (got_element : Bool) (readers writers f : ℕ) (h : Host) (t : Option ℕ) (c : Client)
    → h.running ≡ []
    → library (thread_init_default me got_info got_element) h.client ≡ ok (t, c)
    → 0 < f
    → f ≤ readers + writers
    → ((i : ℕ) → i < f → created i ≡ true)
    → created f ≡ false
    → (h' : Host) × (run_test created threads_run me got_info got_element true true readers writers
          h
        ≡ ok (failure, h'))
      × Dangling f h'
unfolding run_test
run_test-Dangling created threads_run me got_info got_element readers writers f h t c none_yet inits
      pos fits all fails =
    let h1 : Host = record {
      client = c;
      running = timer_role ∷ h.running;
      has_shptr = true;
      has_tids = true;
    } in
    let size : length h.running ≡ 0 = rw none_yet refl in
    elim (Bool-cases (leb f readers)) [
      | inl reader ↦
          let e : 1 + (f - 1) ≡ f = omega arith in
          let loop =
            create_all-fails created reader_role readers 1 (f - 1) h1 (ground arith)
              (λ i low high. all i (omega arith)) (rw e fails) in
          (
            record h1 {
              running = grow reader_role (f - 1) (timer_role ∷ h.running);
              has_shptr = false;
              has_tids = false;
            },
            rw (inits, all 0 pos, loop) refl,
            record {
              still_run =
                  omega (arith, length-grow reader_role (f - 1) (timer_role ∷ h.running), size);
              structure_gone = refl;
            },
          )
      | inr writer ↦
          let m : ℕ = f - 1 - readers in
          let e : readers + 1 + m ≡ f = ground arith in
          let h2 : Host = record h1 { running = grow reader_role readers h1.running } in
          let loop =
            create_all-ok created reader_role readers 1 h1 (λ i low high. all i (ground arith)) in
          let loop' =
            create_all-fails created writer_role writers (readers + 1) m h2 (ground arith)
              (λ i low high. all i (omega (arith, e))) (rw e fails) in
          (
            record h2 {
              running = grow writer_role m h2.running;
              has_shptr = false;
              has_tids = false;
            },
            rw (inits, all 0 pos, loop, loop') refl,
            record {
              still_run = omega (
                arith,
                length-grow writer_role m h2.running,
                length-grow reader_role readers (timer_role ∷ h.running),
                size,
                e,
              );
              structure_gone = refl;
            },
          )
    ]
