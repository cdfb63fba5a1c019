-- ===== src/Examples/Simple.antt =====
-- examples/simple-api-1/simple-api-1.c: readers of a shared object, and writers that replace it. What
-- the platform answers is an argument: the addresses of allocations, `shptr->flag` as a thread reads it
-- in each round, and what other threads do while it sleeps. A function is a number.
pub mod Rounds
use light_rcu.Prelude.{
  ℕ, zero, suc, ◌+◌, ◌%◌, Option, none, some, Bool, not, ◌==◌, if◌then◌else◌, out_of_fuel,
  undefined,
}
use light_rcu.Prelude.Commands.{Command, pure, lift, ◌>>=◌, ◌>>◌, read, ensure}
use light_rcu.Range.{u64_mod}
use light_rcu.Rcu.Admin.{thread_deinit}
use light_rcu.Rcu.Api.{read_lock, read_unlock, write_lock, write_unlock, assign_pointer, call}
use light_rcu.Rcu.Reader.{dereference}
use light_rcu.Rcu.Life.{thread_init_default}
use light_rcu.Examples.{
  Objects, load_data, set_data, free_data, mark, spoil, shared_data_process, Client, library,
  on_objects,
}

-- The value of `newdata->c`.
abbrev pub next_c : ℕ → Command Objects ℕ
next_c item = if item == 0 then pure 1 else (do d ← load_data item; pure ((d.c + 1) % u64_mod))

-- `shared_data_constructor`, which does not look at what `malloc` returns.
unfoldable pub shared_data_constructor : Option ℕ → ℕ → ℕ → Command Objects ℕ
shared_data_constructor none shptr item = lift undefined
shared_data_constructor (some newdata) shptr item = do
  c ← next_c item
  set_data newdata (record { c = c; shptr = shptr })
  pure newdata

-- `shared_data_destructor`
unfoldable pub shared_data_destructor : ℕ → Command Objects (Unit {0})
unfolding spoil
shared_data_destructor p = do ensure (not (p == 0)); spoil p; free_data p

-- The destructor as `lrcu_call` gets it.
abbrev pub destructor_function : ℕ
destructor_function = 1

-- `shared_data_release`
unfoldable pub shared_data_release : Bool → ℕ → Command Client (Unit {0})
unfolding mark call
shared_data_release got item =
    if item == 0
    then pure tt
    else (do on_objects (mark item); library (call got item destructor_function))

-- What a round of `reader` does under the read lock: whether the object was not yet released.
unfoldable pub reader_round : ℕ → ℕ → Command Client Bool
unfolding read_lock read_unlock dereference shared_data_process
reader_round me cell = do
  library (read_lock me)
  item ← library (dereference cell)
  kept ← on_objects (shared_data_process item)
  library (read_unlock me)
  pure kept

-- What a round of `writer` does under the write lock: the object that it has replaced.
unfoldable pub writer_section : Option ℕ → ℕ → ℕ → Command Client ℕ
unfolding write_lock write_unlock assign_pointer shared_data_constructor
writer_section got shptr cell = do
  library write_lock
  item ← library (read (λ w. w.cells cell))
  t ← on_objects (shared_data_constructor got shptr item)
  library (assign_pointer cell t)
  library write_unlock
  pure item

module _ (flag : ℕ → Bool) (sleep : ℕ → Command Client (Unit {0})) (cell : ℕ) where
  -- The loop of `reader`: `processed` and `accrel`.
  unfoldable pub reader_rounds : ℕ → ℕ → ℕ → ℕ → ℕ → Command Client (ℕ × ℕ)
  reader_rounds me zero k processed accrel = lift out_of_fuel
  reader_rounds me (suc fuel) k processed accrel =
      if not (flag k) then pure (processed, accrel) else do
        kept ← reader_round me cell
        sleep k
        reader_rounds me fuel (k + 1) ((processed + 1) % u64_mod)
            (if kept then accrel else (accrel + 1) % u64_mod)

  -- `reader`
  unfoldable pub reader : ℕ → Option ℕ → Bool → ℕ → Command Client (ℕ × ℕ)
  reader me got_info got_element fuel = do
    t ← library (thread_init_default me got_info got_element)
    r ← reader_rounds me fuel 0 0 0
    library (thread_deinit me)
    pure r

  -- The loop of `writer`, with what `malloc` returns in each round, and whether the library then gets
  -- memory.
  unfoldable pub writer_rounds : ℕ → (ℕ → Option ℕ) → (ℕ → Bool) → ℕ → ℕ → ℕ → Command Client ℕ
  writer_rounds shptr news got zero k processed = lift out_of_fuel
  writer_rounds shptr news got (suc fuel) k processed = if not (flag k) then pure processed else do
    item ← writer_section (news k) shptr cell
    sleep k
    shared_data_release (got k) item
    writer_rounds shptr news got fuel (k + 1) ((processed + 1) % u64_mod)

  -- `writer`
  unfoldable pub writer :
      ℕ → Option ℕ → Bool → ℕ → (ℕ → Option ℕ) → (ℕ → Bool) → ℕ → Command Client ℕ
  writer me got_info got_element shptr news got fuel = do
    t ← library (thread_init_default me got_info got_element)
    r ← writer_rounds shptr news got fuel 0 0
    library (thread_deinit me)
    pure r
