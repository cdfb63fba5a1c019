-- ===== src/Examples.antt =====
-- examples/: the objects that the two programs share, with the errors of their use, and commands over
-- them and over the library's store. simple-api-1.c is in Simple, linux-module.c in Module, and the
-- children of Shared interleave the threads of the former.
pub mod Simple
pub mod Module
pub mod Shared
pub mod Host
use light_rcu.Prelude.{
  ℕ, ◌-◌, Option, none, some, Bool, true, not, ◌==◌, if◌then◌else◌, update, Run, ok, assert_failed,
  undefined, out_of_fuel,
}
use light_rcu.Prelude.Commands.{Command, pure, lift, ◌>>=◌, ◌>>◌, deref, read, ensure}
use light_rcu.Range.{u64_mod}
use light_rcu.Rcu.State.{World, M}

-- `struct shared_data`. In linux-module.c it has a member `lrcu_head`, which the library writes and
-- which the store of the library keeps.
pub record SharedData : Type 0 where
  pub c : ℕ
  pub shptr : ℕ

-- An object that is not allocated is `none`.
abbrev pub Objects : Type 0
Objects = ℕ → Option SharedData

-- `INVALID_C_BEFORE` and `INVALID_C_AFTER`
abbrev pub invalid_before : ℕ
invalid_before = u64_mod - 1

abbrev pub invalid_after : ℕ
invalid_after = u64_mod - 2

-- Reads and writes through a pointer, which must not be null.
abbrev pub load_data : ℕ → Command Objects SharedData
load_data p = if p == 0 then lift undefined else (do d ← read (λ o. o p); deref d)

abbrev pub set_data : ℕ → SharedData → Command Objects (Unit {0})
set_data p d o = ok (tt, update o p (some d))

-- `malloc` or `LRCU_MALLOC` with the result `p`, and `free`
abbrev pub free_data : ℕ → Command Objects (Unit {0})
free_data p o = ok (tt, update o p none)

-- `data->c = INVALID_C_BEFORE`
unfoldable pub mark : ℕ → Command Objects (Unit {0})
mark p = do d ← load_data p; set_data p (record d { c = invalid_before })

-- `data->shptr = NULL; data->c = INVALID_C_AFTER`
unfoldable pub spoil : ℕ → Command Objects (Unit {0})
spoil p = do d ← load_data p; set_data p (record { c = invalid_after; shptr = 0 })

-- `shared_data_process`, the same in both programs
unfoldable pub shared_data_process : ℕ → Command Objects Bool
shared_data_process item = if item == 0 then pure true else do
  d ← load_data item
  ensure (not (d.c == 0))
  ensure (not (d.c == invalid_after))
  pure (not (d.c == invalid_before))

-- The store of the library and that of the program.
pub record Client : Type 0 where
  pub world : World
  pub objects : Objects

module _ {A : Type 0} where
  abbrev with_world : Client → Run (A × World) → Run (A × Client)
  with_world k (ok (a, w)) = ok (a, record k { world = w })
  with_world k assert_failed = assert_failed
  with_world k undefined = undefined
  with_world k out_of_fuel = out_of_fuel

  -- A call of the library.
  abbrev pub library : M A → Command Client A
  library m k = with_world k (m k.world)

  abbrev with_objects : Client → Run (A × Objects) → Run (A × Client)
  with_objects k (ok (a, o)) = ok (a, record k { objects = o })
  with_objects k assert_failed = assert_failed
  with_objects k undefined = undefined
  with_objects k out_of_fuel = out_of_fuel

  abbrev pub on_objects : Command Objects A → Command Client A
  on_objects m k = with_objects k (m k.objects)
