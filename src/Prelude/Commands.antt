-- ===== src/Prelude/Commands.antt =====
-- Commands over a state, which may end as `Run` says.
use light_rcu.Prelude.Outcome.{Run, ok, assert_failed, undefined, out_of_fuel}
use mathlib.Core.Option.{Option, none, some}
use mathlib.Core.Bool.{Bool, true, false}

abbrev pub Command : Type 0 → Type 0 → Type 0
Command S A = S → Run (A × S)

module _ {S : Type 0} where
  abbrev pub pure : {A : Type 0} → A → Command S A
  pure a w = ok (a, w)

  abbrev pub lift : {A : Type 0} → Run A → Command S A
  lift (ok a) w = ok (a, w)
  lift assert_failed w = assert_failed
  lift undefined w = undefined
  lift out_of_fuel w = out_of_fuel

  abbrev pub and_then : {A B : Type 0} → Run (A × S) → (A → Command S B) → Run (B × S)
  and_then (ok (a, w)) f = f a w
  and_then assert_failed f = assert_failed
  and_then undefined f = undefined
  and_then out_of_fuel f = out_of_fuel

  infixl 5 ◌>>=◌ ◌>>◌
  abbrev pub ◌>>=◌ : {A B : Type 0} → Command S A → (A → Command S B) → Command S B
  ◌>>=◌ m f w = and_then (m w) f

  abbrev pub ◌>>◌ : {B : Type 0} → Command S (Unit {0}) → Command S B → Command S B
  m >> k = m >>= λ _. k

  -- `LRCU_ASSERT` of a pointer, and the read of an object.
  abbrev pub assert_some : {A : Type 0} → Option A → Command S A
  assert_some none = lift assert_failed
  assert_some (some a) = pure a

  abbrev pub deref : {A : Type 0} → Option A → Command S A
  deref none = lift undefined
  deref (some a) = pure a

  abbrev pub read : {A : Type 0} → (S → A) → Command S A
  read f w = ok (f w, w)

  -- `LRCU_ASSERT`
  abbrev pub ensure : Bool → Command S (Unit {0})
  ensure true = pure tt
  ensure false = lift assert_failed
