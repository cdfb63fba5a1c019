-- ===== src/Examples/Shared/Effects.antt =====
-- What the functions of the programs do to the objects, and when they return.
use light_rcu.Prelude.{
  ℕ, ◌+◌, ◌%◌, ◌≤◌, ◌<◌, ◌≡◌, Bool, ==→ne, ◌≢◌, ◌⊎◌, inl, inr, refl, Bool-cases, true, false,
  Option, none, some, ok, update, ◌==◌, arith, not,
}
use light_rcu.Range.{u64_mod}
use light_rcu.Examples.{
  SharedData, Objects, invalid_before, invalid_after, mark, spoil, shared_data_process,
}
use light_rcu.Examples.Simple.{shared_data_constructor, shared_data_destructor}
use light_rcu.Examples.Module.{construct_checked}

pub Option-cases {ℓ} : {A : Type ℓ} (x : Option A) → (x ≡ none) ⊎ ((a : A) × (x ≡ some a))
Option-cases none = inl refl
Option-cases (some a) = inr (a, refl)

-- The object is as the constructor made it, one of the first `k`.
abbrev pub IsNew : ℕ → Option SharedData → Type 0
IsNew k x = (d : SharedData) × (x ≡ some d) × (1 ≤ d.c) × (d.c ≤ k)

-- The same, or it is marked as released.
abbrev pub IsReadable : ℕ → Option SharedData → Type 0
IsReadable k x =
    (d : SharedData) × (x ≡ some d) × ((d.c ≡ invalid_before) ⊎ ((1 ≤ d.c) × (d.c ≤ k)))

pub mark-inv :
    (p : ℕ) (o o' : Objects)
    → mark p o ≡ ok (tt, o')
    → (d : SharedData) × (o' ≡ update o p (some (record d { c = invalid_before })))
unfolding mark
mark-inv p o o' e = elim (Bool-cases (p == 0)) [
  | inl null ↦ let e' = rw null at e in absurd (ground arith)
  | inr there ↦ elim (Option-cases (o p)) [
    | inl gone ↦ let e' = rw (there, gone) at e in absurd (ground arith)
    | inr (d, has) ↦ let e' = rw (there, has) at e in (d, cc)
  ]
]

pub spoil-inv :
    (p : ℕ) (o o' : Objects)
    → spoil p o ≡ ok (tt, o')
    → (d : SharedData) × (o' ≡ update o p (some d))
unfolding spoil
spoil-inv p o o' e = elim (Bool-cases (p == 0)) [
  | inl null ↦ let e' = rw null at e in absurd (ground arith)
  | inr there ↦ elim (Option-cases (o p)) [
    | inl gone ↦ let e' = rw (there, gone) at e in absurd (ground arith)
    | inr (d, has) ↦ let e' = rw (there, has) at e in (record { c = invalid_after; shptr = 0 }, cc)
  ]
]

-- What the constructor reads: no object, or a new one.
abbrev pub IsCurrent : ℕ → Objects → ℕ → Type 0
IsCurrent k o p = (p ≡ 0) ⊎ IsNew k (o p)

pub construct-inv :
    (new shptr p k : ℕ) (o o' : Objects)
    → IsCurrent k o p
    → k + 1 < u64_mod
    → shared_data_constructor (some new) shptr p o ≡ ok (new, o')
    → (d : SharedData) × (o' ≡ update o new (some d)) × (1 ≤ d.c) × (d.c ≤ k + 1)
unfolding shared_data_constructor
construct-inv new shptr p k o o' h fits e = elim (Bool-cases (p == 0)) [
  | inl null ↦
      let e' = rw null at e in (record { c = 1; shptr = shptr }, cc, omega arith, omega arith)
  | inr there ↦ elim h [
    | inl null ↦ absurd (==→ne p 0 there null)
    | inr (d, has, low, high) ↦
        let e' = rw (there, has) at e in
        (
          record { c = (d.c + 1) % u64_mod; shptr = shptr },
          cc,
          omega (arith, low, high, fits),
          omega (arith, low, high, fits),
        )
  ]
]

-- The two constructors, under what the second one asserts.
pub construct_lem :
    (new shptr p k : ℕ) (o : Objects)
    → IsCurrent k o p
    → k < invalid_after
    → (o' : Objects) × (shared_data_constructor (some new) shptr p o ≡ ok (new, o'))
      × (construct_checked (some new) shptr p o ≡ ok (new, o'))
unfolding shared_data_constructor construct_checked
construct_lem new shptr p k o h fits = elim (Bool-cases (p == 0)) [
  | inl null ↦ (update o new (some (record { c = 1; shptr = shptr })), rw null refl, rw null refl)
  | inr there ↦ elim h [
    | inl null ↦ absurd (==→ne p 0 there null)
    | inr (d, has, low, high) ↦
        let after : (d.c == invalid_after) ≡ false = ground (arith, high, fits) in
        let before : (d.c == invalid_before) ≡ false = ground (arith, high, fits) in
        (
          update o new (some (record { c = (d.c + 1) % u64_mod; shptr = shptr })),
          rw (there, has) refl,
          rw (there, has, after, before) refl,
        )
  ]
]

pub process_lem :
    (p k : ℕ) (o : Objects)
    → IsReadable k (o p)
    → k < invalid_after
    → (b : Bool) × (shared_data_process p o ≡ ok (b, o))
unfolding shared_data_process
process_lem p k o (d, has, ok_c) fits = elim (Bool-cases (p == 0)) [
  | inl null ↦ (true, rw null refl)
  | inr there ↦
      let after : (d.c == invalid_after) ≡ false = ground (arith, ok_c, fits) in
      let pos : (d.c == 0) ≡ false = ground (arith, ok_c) in
      (not (d.c == invalid_before), rw (there, has, pos, after) refl)
]

pub destructor_lem :
    (p : ℕ) (o : Objects) (d : SharedData)
    → p ≢ 0
    → o p ≡ some d
    → (o' : Objects) × (shared_data_destructor p o ≡ ok (tt, o')) × (o' p ≡ none)
unfolding shared_data_destructor
destructor_lem p o d there has =
    let e : (p == 0) ≡ false = ground arith in
    let same : (p == p) ≡ true = ground arith in
    (
      update (update o p (some (record { c = invalid_after; shptr = 0 }))) p none,
      rw (e, has) refl,
      rw same refl,
    )
