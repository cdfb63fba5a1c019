-- ===== src/Prelude/Outcome.antt =====
-- The outcome of a run of C code: a value, an assertion that fails, undefined behaviour (an access
-- outside an array, through a null pointer or to freed memory, a signed overflow), or a loop that
-- has not ended when its fuel is used up.
use mathlib.Core.Bool.{Bool, true, false}

pub data Run {ℓ} (A : Type ℓ) : Type ℓ where
  ok : A → Run A
  assert_failed : Run A
  undefined : Run A
  out_of_fuel : Run A

infixl 5 ◌>>=◌ ◌>>◌
abbrev pub ◌>>=◌ {ℓ κ} : {A : Type ℓ} {B : Type κ} → Run A → (A → Run B) → Run B
ok a >>= f = f a
assert_failed >>= f = assert_failed
undefined >>= f = undefined
out_of_fuel >>= f = out_of_fuel

abbrev pub ◌>>◌ {ℓ} : {B : Type ℓ} → Run (Unit {0}) → Run B → Run B
m >> k = m >>= λ _. k

-- `LRCU_ASSERT`
abbrev pub assert : Bool → Run (Unit {0})
assert true = ok tt
assert false = assert_failed

-- The run ends normally, with a result that satisfies `P`.
abbrev pub Returns {ℓ} : {A : Type ℓ} → (A → Type 0) → Run A → Type 0
Returns P (ok a) = P a
Returns P assert_failed = ⊥
Returns P undefined = ⊥
Returns P out_of_fuel = ⊥
