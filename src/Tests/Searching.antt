-- ===== src/Tests/Searching.antt =====
-- A linear search, in the place of the C library's `bsearch`.
use light_rcu.Prelude.{
  ℕ, zero, suc, ◌<◌, ◌≡◌, ◌≢◌, refl, subst, Option, none, some, inl, inr, ◌==◌, Bool, true, false,
  Bool-cases, ==→eq, ==→ne, if◌then◌else◌, arith,
}
use light_rcu.Qsort.{Cmp, less, same, more}
use light_rcu.Bsearch.{Bsearch}

abbrev pub is_same : Cmp → Bool
is_same less = false
is_same same = true
is_same more = false

is_same-eq : (c : Cmp) → is_same c ≡ true → c ≡ same
is_same-eq same h = refl
is_same-eq less h = absurd (ground arith)
is_same-eq more h = absurd (ground arith)

module _ {A : Type 0} (cmp : A → A → Cmp) (key : A) (r : ℕ → A) where
  abbrev pub first_match : ℕ → Option ℕ
  first_match zero = none
  first_match (suc n) = if is_same (cmp key (r n)) then some n else first_match n

  pub first_match-some : (n i : ℕ) → first_match n ≡ some i → (i < n) × (cmp key (r i) ≡ same)
  first_match-some zero i e = absurd (ground arith)
  first_match-some (suc n) i e = elim (Bool-cases (is_same (cmp key (r n)))) [
    | inl hit ↦
        let e' = rw hit at e in
        let n_is : n ≡ i = cc in
        subst (λ (j : ℕ). (j < suc n) × (cmp key (r j) ≡ same)) n_is
          (omega arith, is_same-eq (cmp key (r n)) hit)
    | inr miss ↦ let (l, h) = first_match-some n i (rw miss at e) in (omega arith, h)
  ]

  pub first_match-none : (n : ℕ) → first_match n ≡ none → (i : ℕ) → i < n → cmp key (r i) ≢ same
  first_match-none zero e i l h = absurd (omega arith)
  first_match-none (suc n) e i l h = elim (Bool-cases (is_same (cmp key (r n)))) [
    | inl hit ↦ let e' = rw hit at e in ground arith
    | inr miss ↦ elim (Bool-cases (i == n)) [
      | inl last ↦
          let h' = subst (λ (j : ℕ). cmp key (r j) ≡ same) (==→eq i n last) h in
          let miss' = rw h' at miss in ground arith
      | inr before ↦ first_match-none n (rw miss at e) i (omega (arith, ==→ne i n before)) h
    ]
  ]

abbrev pub linear_search : {A : Type 0} → Bsearch A
linear_search = record {
  search = first_match;
  search-some = λ cmp key r len i p e. first_match-some cmp key r len i e;
  search-none = λ cmp key r len p e. first_match-none cmp key r len e;
}
