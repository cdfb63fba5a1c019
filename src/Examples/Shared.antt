-- ===== src/Examples/Shared.antt =====
-- examples/: the threads of the programs, interleaved with the worker at each access to what they
-- share. The library's part is that of Rcu/Interleave; `shptr->ptr` is the protected pointer in `cell`.
-- What a thread does with objects are the functions of Simple, and the memory that is got is new.
pub mod Effects
pub mod Invariant
pub mod Turns
pub mod Construct
pub mod Own
pub mod Safety
use light_rcu.Prelude.{
  ℕ, ◌+◌, ◌≡◌, ◌≢◌, Bool, true, false, Option, none, some, List, ◌∷◌, ok, update,
}
use light_rcu.Rcu.State.{LrcuPtr}
use light_rcu.Rcu.Interleave.{
  Sys, idle, bumped, written, serving, blocked, assigning, include, Step, move, barrier, lock,
  unlock, bump, assign, take_version, add, pass_over, lose, splice, start, see_version, see_counter,
  decide, keep, call, finish, Start, Reach,
}
use light_rcu.Examples.{SharedData, Objects, mark, spoil, free_data}
use light_rcu.Examples.Simple.{shared_data_constructor}

-- `made` marks the objects that were constructed, and `published` is their number; `built` is `t` of a
-- writer that has not begun to assign it; `doomed` is the object whose destructor runs.
pub record Program : Type 0 where
  pub sys : Sys
  pub objects : Objects
  pub made : ℕ → Bool
  pub published : ℕ
  pub built : ℕ → Option ℕ
  pub doomed : Option ℕ

module _ {n : ℕ} {s : Sys} where
  -- The steps that the program leaves to the library; the others come with what it does itself.
  abbrev pub is_free : {t : Sys} → Step n s t → Bool
  is_free (move i t below m) = true
  is_free barrier = true
  is_free (lock i e) = true
  is_free (unlock i e settled) = false
  is_free (bump i c new e mine fresh) = false
  is_free (assign i c new e) = true
  is_free (take_version i old e) = true
  is_free (add i old v e) = true
  is_free (pass_over i old e) = true
  is_free (lose i old v e) = true
  is_free (splice e) = true
  is_free (start e) = true
  is_free (see_version i current e) = true
  is_free (see_counter i current e) = true
  is_free (decide current e all) = true
  is_free (keep current x xs kept e list) = true
  is_free (call current x xs kept e list free) = false
  is_free (finish current kept e list) = true

-- A step of the program with `n` threads.
pub data Turn (n cell shptr : ℕ) (s : Program) : Program → Type 0 where
  library_step :
      (t : Sys) (st : Step n s.sys t)
      → is_free st ≡ true
      → Turn n cell shptr s (record s { sys = t })
  -- `lrcu_write_unlock`, behind the assignment
  unlock_turn :
      (i : ℕ)
      → s.sys.owner ≡ some i
      → assigning (s.sys.writers i) ≡ false
      → s.built i ≡ none
      → Turn n cell shptr s (record s { sys = record s.sys { owner = none } })
  -- `shared_data_constructor`, under the write lock
  construct :
      (i new : ℕ) (o : Objects)
      → s.sys.owner ≡ some i
      → s.sys.writers i ≡ idle
      → s.built i ≡ none
      → s.sys.used new ≡ false
      → s.made new ≡ false
      → new ≢ 0
      → shared_data_constructor (some new) shptr (s.sys.cells cell) s.objects ≡ ok (new, o)
      → Turn n cell shptr s (record s {
        objects = o;
        made = include new s.made;
        published = s.published + 1;
        built = update s.built i (some new);
      })
  -- The new version in `lrcu_assign_pointer(shptr->ptr, t)`
  begin :
      (i new : ℕ)
      → s.built i ≡ some new
      → s.sys.writers i ≡ idle
      → Turn n cell shptr s (record s {
        sys = record s.sys {
          version = s.sys.version + 1;
          writers = update s.sys.writers i (bumped cell new);
        };
        built = update s.built i none;
      })
  -- `data->c = INVALID_C_BEFORE` in `shared_data_release`
  mark_old :
      (i old : ℕ) (o : Objects)
      → s.sys.writers i ≡ written old
      → mark old s.objects ≡ ok (tt, o)
      → Turn n cell shptr s (record s { objects = o })
  -- The worker calls a destructor, and the accesses of `shared_data_destructor` follow.
  destroy :
      (current : ℕ) (x : LrcuPtr) (xs kept : List LrcuPtr)
      → s.sys.worker ≡ serving current kept
      → s.sys.worker_list ≡ x ∷ xs
      → blocked s.sys current n x.version ≡ false
      → s.doomed ≡ none
      → Turn n cell shptr s (record s {
        sys = record s.sys { worker_list = xs; called = include x.ptr s.sys.called };
        doomed = some x.ptr;
      })
  spoil_doomed :
      (p : ℕ) (o : Objects)
      → s.doomed ≡ some p
      → s.made p ≡ true
      → spoil p s.objects ≡ ok (tt, o)
      → Turn n cell shptr s (record s { objects = o })
  free_doomed :
      (p : ℕ)
      → s.doomed ≡ some p
      → s.made p ≡ true
      → Turn n cell shptr s (record s { objects = update s.objects p none; doomed = none })
  -- The destructor of an object that is not of the program.
  pass_doomed :
      (p : ℕ)
      → s.doomed ≡ some p
      → s.made p ≡ false
      → Turn n cell shptr s (record s { doomed = none })

-- Nothing was published in the cell, and nothing made.
pub record Begins (cell : ℕ) (s : Program) : Type 0 where
  pub sys_starts : Start s.sys
  pub null_cell : s.sys.cells cell ≡ 0
  pub none_made : (p : ℕ) → s.made p ≡ false
  pub none_built : (i : ℕ) → s.built i ≡ none
  pub none_doomed : s.doomed ≡ none

pub data Runs (n cell shptr : ℕ) : Program → Type 0 where
  begins : {s : Program} → Begins cell s → Runs n cell shptr s
  turns : {s t : Program} → Runs n cell shptr s → Turn n cell shptr s t → Runs n cell shptr t
