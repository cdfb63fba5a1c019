-- ===== src/Examples/Module.antt =====
-- examples/linux-module/linux-module.c: the same threads as in Simple, with an object that the library
-- links by its member `lrcu_head`, and with the allocation checked. What the platform answers is an
-- argument, as there; `flag` is `shptr->flag && !LRCU_THREAD_SHOULD_STOP()`.
use light_rcu.Prelude.{
  ℕ, zero, suc, ◌+◌, ◌-◌, ◌%◌, Option, none, some, Bool, not, ◌==◌, if◌then◌else◌, out_of_fuel,
}
use light_rcu.Prelude.Commands.{Command, pure, lift, ◌>>=◌, ◌>>◌, read, ensure}
use light_rcu.Range.{u64_mod}
use light_rcu.Rcu.Admin.{thread_deinit}
use light_rcu.Rcu.Api.{write_lock, write_unlock, assign_pointer, call_head}
use light_rcu.Rcu.Life.{thread_init_default}
use light_rcu.Examples.{
  Objects, load_data, set_data, free_data, mark, spoil, invalid_before, invalid_after, Client,
  library, on_objects,
}
use light_rcu.Examples.Simple.{reader_rounds, destructor_function}

-- `&data->lrcu_head` stands behind the members `c` and `shptr`, of 8 bytes each, and `container_of`
-- goes back.
abbrev pub head_offset : ℕ
head_offset = 16

abbrev pub head_of : ℕ → ℕ
head_of item = item + head_offset

abbrev pub container_of : ℕ → ℕ
container_of p = p - head_offset

-- The value of `newdata->c`.
abbrev pub next_c_checked : ℕ → Command Objects ℕ
next_c_checked item = if item == 0 then pure 1 else do
  d ← load_data item
  ensure (not (d.c == invalid_after))
  ensure (not (d.c == invalid_before))
  pure ((d.c + 1) % u64_mod)

-- `shared_data_constructor`; 0 is `NULL`.
unfoldable pub construct_checked : Option ℕ → ℕ → ℕ → Command Objects ℕ
construct_checked none shptr item = pure 0
construct_checked (some newdata) shptr item = do
  c ← next_c_checked item
  set_data newdata (record { c = c; shptr = shptr })
  pure newdata

-- `shared_data_destructor`, and `freed` behind it
unfoldable pub destroy_head : ℕ → ℕ → Command Objects ℕ
unfolding spoil
destroy_head freed p = do
  ensure (not (p == 0))
  spoil (container_of p)
  free_data (container_of p)
  pure ((freed + 1) % u64_mod)

-- `shared_data_release`
unfoldable pub release_head : ℕ → Command Client (Unit {0})
unfolding mark call_head
release_head item =
    if item == 0
    then pure tt
    else (do on_objects (mark item); library (call_head (head_of item) destructor_function))

-- What a round of `writer` does under the write lock.
unfoldable pub checked_section : Option ℕ → ℕ → ℕ → Command Client ℕ
unfolding write_lock write_unlock assign_pointer construct_checked
checked_section got shptr cell = do
  library write_lock
  item ← library (read (λ w. w.cells cell))
  t ← on_objects (construct_checked got shptr item)
  library (assign_pointer cell t)
  library write_unlock
  pure item

module _ (flag : ℕ → Bool) (sleep : ℕ → Command Client (Unit {0})) (cell : ℕ) where
  -- The loop of `writer`, with what `LRCU_MALLOC` returns in each round.
  unfoldable pub checked_rounds : ℕ → (ℕ → Option ℕ) → ℕ → ℕ → ℕ → Command Client ℕ
  checked_rounds shptr news zero k processed = lift out_of_fuel
  checked_rounds shptr news (suc fuel) k processed = if not (flag k) then pure processed else do
    item ← checked_section (news k) shptr cell
    sleep k
    release_head item
    checked_rounds shptr news fuel (k + 1) ((processed + 1) % u64_mod)

  -- `writer`
  unfoldable pub checked_writer : ℕ → Option ℕ → Bool → ℕ → (ℕ → Option ℕ) → ℕ → Command Client ℕ
  checked_writer me got_info got_element shptr news fuel = do
    t ← library (thread_init_default me got_info got_element)
    r ← checked_rounds shptr news fuel 0 0
    library (thread_deinit me)
    pure r

  -- `reader`, whose loop is that of simple-api-1.c
  unfoldable pub checked_reader : ℕ → Option ℕ → Bool → ℕ → Command Client (ℕ × ℕ)
  checked_reader me got_info got_element fuel = do
    t ← library (thread_init_default me got_info got_element)
    r ← reader_rounds flag sleep cell me fuel 0 0 0
    library (thread_deinit me)
    pure r
