-- ===== src/Bsearch.antt =====
-- The C library's `bsearch`, which range.c calls where `BINTREE_SEARCH_SELF_IMPLEMENTED` is not defined.
-- It is not part of this repository: the development takes it as a value of `Bsearch`, with what the C
-- standard says. The array is a function from index to slot.
use light_rcu.Prelude.{ℕ, ◌<◌, ◌≡◌, ◌≢◌, Option, none, some}
use light_rcu.Qsort.{Cmp, less, same, more}

-- What `bsearch` asks of its array: the slots that the key is above come first, then those that match
-- it, then those that it is below.
abbrev pub IsPartitioned : {A : Type 0} → (A → A → Cmp) → A → (ℕ → A) → ℕ → Type 0
IsPartitioned cmp key r len =
    (i j : ℕ)
    → i < j
    → j < len
    → (cmp key (r i) ≡ less → cmp key (r j) ≡ less) × (cmp key (r j) ≡ more → cmp key (r i) ≡ more)

-- A matching slot, and a miss only if there is none.
pub record Bsearch (A : Type 0) : Type 0 where
  pub search : (A → A → Cmp) → A → (ℕ → A) → ℕ → Option ℕ
  pub search-some :
      (cmp : A → A → Cmp) (key : A) (r : ℕ → A) (len i : ℕ)
      → IsPartitioned cmp key r len
      → search cmp key r len ≡ some i
      → (i < len) × (cmp key (r i) ≡ same)
  pub search-none :
      (cmp : A → A → Cmp) (key : A) (r : ℕ → A) (len : ℕ)
      → IsPartitioned cmp key r len
      → search cmp key r len ≡ none
      → (i : ℕ) → i < len
      → cmp key (r i) ≢ same
