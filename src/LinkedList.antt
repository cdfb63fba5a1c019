-- ===== src/LinkedList.antt =====
-- include/lrcu/list.h: a singly linked list of elements on a heap, with `LRCU_LIST_DEBUG` defined and
-- `LRCU_LIST_ATOMIC` not, as in include/lrcu/defines.h. A pointer is a number, 0 is `NULL`. A list's
-- head stands outside the heap: a function that changes it returns the new one. Each loop takes
-- `fuel` rounds at most.
pub mod Chain
pub mod Check
pub mod Insert
pub mod Unlink
pub mod Splice
pub mod Walk
pub mod Sweep
pub mod Find
pub mod Atomic
use light_rcu.Prelude.{
  ℕ, zero, suc, ◌+◌, Bool, true, false, not, ◌&&◌, ◌||◌, Option, none, some, List, [], ◌∷◌, ltb,
  ◌==◌, if◌then◌else◌, update, ok, undefined, out_of_fuel,
}
use light_rcu.Prelude.Commands.{Command, pure, lift, ◌>>=◌, ◌>>◌, ensure}

-- `lrcu_list_t`, where `value` is the pointer that `data` holds.
pub record Elem : Type 0 where
  pub next : ℕ
  pub value : ℕ

abbrev pub elem_of : ℕ → ℕ → Elem
elem_of q v = record { next = q; value = v }

-- `none` where no element is allocated.
abbrev pub Heap : Type 0
Heap = ℕ → Option Elem

abbrev pub Cmd : Type 0 → Type 0
Cmd A = Command Heap A

-- `__lrcu_list_check_loop_depth`
abbrev pub check_depth : ℕ
check_depth = 100000

abbrev pub take_elem : Heap → Option Elem → Cmd Elem
take_elem h none g = undefined
take_elem h (some e) g = ok (e, g)

-- `*p`
unfoldable pub load : ℕ → Cmd Elem
load p h = if p == 0 then undefined else take_elem h (h p) h

abbrev pub store : ℕ → Option Elem → Cmd (Unit {0})
store p e h = ok (tt, update h p e)

-- `p->next = q`
unfoldable pub set_next : ℕ → ℕ → Cmd (Unit {0})
unfolding load
set_next p q = do e ← load p; store p (some (record e { next = q }))

-- `LRCU_FREE(p)`
unfoldable pub free : ℕ → Cmd (Unit {0})
unfolding load
free p = do e ← load p; store p none

-- `lrcu_list_init` and `lrcu_list_empty`
abbrev pub null : ℕ
null = 0

unfoldable pub is_null : ℕ → Bool
is_null lh = lh == 0

-- The loop of `lrcu_list_check_loop`
unfoldable pub check_rounds : ℕ → ℕ → ℕ → ℕ → Cmd (Unit {0})
check_rounds zero e cnt t = lift out_of_fuel
check_rounds (suc k) e cnt t = if e == 0 then ensure (ltb cnt check_depth) else do
  x ← load e
  ensure (not (e == x.next))
  ensure (not (e == t))
  check_rounds k x.next (cnt + 1) (if ltb check_depth (cnt + 1) && (t == 0) then e else t)

-- The loop of `lrcu_list_get_tail`
unfoldable pub tail_rounds : ℕ → ℕ → ℕ → Cmd ℕ
tail_rounds zero e e_prev = lift out_of_fuel
tail_rounds (suc k) e e_prev = if e == 0 then pure e_prev else do x ← load e; tail_rounds k x.next e

module _ (fuel : ℕ) where
  -- `lrcu_list_check_loop`
  unfoldable pub check_loop : ℕ → Cmd (Unit {0})
  check_loop lh = check_rounds fuel lh 0 0

  -- `lrcu_list_get_tail`
  unfoldable pub get_tail : ℕ → Cmd ℕ
  get_tail lh = do check_loop lh; tail_rounds fuel lh 0

  -- `lrcu_list_insert`: the new head.
  unfoldable pub insert : ℕ → ℕ → Cmd ℕ
  insert lh e = do if is_null lh then set_next e 0 else set_next e lh; check_loop e; pure e

  -- `__lrcu_list_add`, with the address that `malloc` gave: the element and the new head.
  unfoldable pub add : Option ℕ → ℕ → ℕ → Cmd (ℕ × ℕ)
  add none lh v = pure (0, lh)
  add (some e) lh v = do
    store e (some (elem_of 0 v))
    lh' ← insert lh e
    check_loop lh'
    pure (e, lh')

  -- `lrcu_list_unlink_next`: the new head.
  unfoldable pub unlink_next : ℕ → ℕ → Cmd ℕ
  unlink_next lh e =
      if e == 0
      then (do ensure (not (lh == 0)); t ← load lh; set_next lh 0; check_loop t.next; pure t.next)
      else (do
        x ← load e
        ensure (not (x.next == 0))
        t ← load x.next
        set_next x.next 0
        set_next e t.next
        check_loop lh
        pure lh)

  -- The end of `lrcu_list_splice`: the two heads.
  unfoldable pub spliced : ℕ → Cmd (ℕ × ℕ)
  spliced lh = do check_loop lh; check_loop null; pure (lh, null)

  -- `lrcu_list_splice`
  unfoldable pub splice : ℕ → ℕ → Cmd (ℕ × ℕ)
  splice lh lt = if is_null lt then pure (lh, lt) else if is_null lh then spliced lt else do
    e_prev ← get_tail lh
    ensure (not (e_prev == 0))
    check_loop lh
    set_next e_prev lt
    spliced lh

  -- `__lrcu_list_for_each_get___n`: the new `n` and `n_prev`.
  unfoldable pub advance : ℕ → ℕ → ℕ → Cmd (ℕ × ℕ)
  advance n n_prev lh =
      if n_prev == 0
      then (if (n == 0) || not (n == lh) then pure (lh, 0) else (do x ← load n; pure (x.next, lh)))
      else (do
        x ← load n_prev
        if x.next == n then (do y ← load n; pure (y.next, n)) else pure (x.next, n_prev))

  -- The loop of `__lrcu_list_find_ptr_unlink`: the element found and the new head.
  unfoldable pub find_rounds : ℕ → Bool → ℕ → ℕ → ℕ → ℕ → Cmd (ℕ × ℕ)
  find_rounds p unlinks zero lh n n_prev = lift out_of_fuel
  find_rounds p unlinks (suc k) lh n n_prev = do
    (n', prev') ← advance n n_prev lh
    if n' == 0 then pure (0, lh) else do
      x ← load n'
      if x.value == p
          then (if unlinks then (do lh' ← unlink_next lh prev'; pure (n', lh')) else pure (n', lh))
          else find_rounds p unlinks k lh n' prev'

  -- `__lrcu_list_find_ptr_unlink`
  unfoldable pub find_ptr_unlink : ℕ → ℕ → Bool → Cmd (ℕ × ℕ)
  find_ptr_unlink lh p unlinks = do check_loop lh; find_rounds p unlinks fuel lh 0 0

  -- `lrcu_list_for_each` with a body that unlinks and frees the elements whose value `drops` tells, as
  -- the loops of src/lrcu.c do: the new head, and the values that the body saw, in order.
  unfoldable pub sweep_rounds : (ℕ → Bool) → ℕ → ℕ → ℕ → ℕ → Cmd (ℕ × List ℕ)
  sweep_rounds drops zero lh n n_prev = lift out_of_fuel
  sweep_rounds drops (suc k) lh n n_prev = do
    (n', prev') ← advance n n_prev lh
    if n' == 0 then pure (lh, []) else do
      x ← load n'
      if drops x.value
          then (do
            lh' ← unlink_next lh prev'
            free n'
            (lh'', vs) ← sweep_rounds drops k lh' n' prev'
            pure (lh'', x.value ∷ vs))
          else (do (lh', vs) ← sweep_rounds drops k lh n' prev'; pure (lh', x.value ∷ vs))

  unfoldable pub sweep : (ℕ → Bool) → ℕ → Cmd (ℕ × List ℕ)
  sweep drops lh = do check_loop lh; sweep_rounds drops fuel lh 0 0
