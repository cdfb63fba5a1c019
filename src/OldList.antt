-- ===== src/OldList.antt =====
-- src/list.h: the list that include/lrcu/list.h has replaced, with `LRCU_LIST_DEBUG` defined and
-- `LRCU_LIST_ATOMIC` not. The heap, the pointers and the fuel of loops are those of LinkedList; what is
-- declared there and not here, such as `lrcu_list_init` and the loop of `lrcu_list_get_tail`, is the
-- same in both files.
pub mod Loops
pub mod Unlink
use light_rcu.Prelude.{
  ℕ, zero, suc, ◌+◌, Bool, not, ◌&&◌, Option, none, some, ltb, ◌==◌, if◌then◌else◌, out_of_fuel,
  undefined,
}
use light_rcu.Prelude.Commands.{pure, lift, ◌>>=◌, ◌>>◌, ensure}
use light_rcu.LinkedList.{
  Cmd, check_depth, elem_of, load, store, set_next, null, is_null, tail_rounds,
}

-- The loop of `lrcu_list_check_loop`, which asserts nothing of the length.
unfoldable pub check_rounds : ℕ → ℕ → ℕ → ℕ → Cmd (Unit {0})
check_rounds zero e cnt t = lift out_of_fuel
check_rounds (suc k) e cnt t = if e == 0 then pure tt else do
  x ← load e
  ensure (not (e == x.next))
  ensure (not (e == t))
  check_rounds k x.next (cnt + 1) (if ltb check_depth (cnt + 1) && (t == 0) then e else t)

-- `__lrcu_list_for_each_get___n`: its value, and the new `n` and `n_prev`. The last line is that of its
-- two branches that read `n_prev->next`.
abbrev pub step_from : ℕ → ℕ → Cmd (ℕ × ℕ × ℕ)
step_from n n_prev =
    if n_prev == 0 then pure (0, n, n_prev) else do x ← load n_prev; pure (x.next, x.next, n_prev)

unfoldable pub advance : ℕ → ℕ → ℕ → Cmd (ℕ × ℕ × ℕ)
advance n n_prev lh =
    if n == lh
    then (do ensure (n_prev == 0); if n_prev == 0 then pure (0, n, n_prev) else step_from n lh)
    else (if n_prev == 0 then (do x ← load n_prev; step_from n x.next) else step_from n lh)

module _ (fuel : ℕ) where
  -- `lrcu_list_check_loop`
  unfoldable pub check_loop : ℕ → Cmd (Unit {0})
  check_loop lh = check_rounds fuel lh 0 0

  -- `lrcu_list_get_tail`
  unfoldable pub get_tail : ℕ → Cmd ℕ
  get_tail lh = tail_rounds fuel lh 0

  -- `lrcu_list_insert`: the new head.
  unfoldable pub insert : ℕ → ℕ → Cmd ℕ
  insert lh e = do if is_null lh then set_next e 0 else set_next e lh; check_loop e; pure e

  -- `__lrcu_list_add`, with the address that `malloc` gave: the element and the new head.
  unfoldable pub add : Option ℕ → ℕ → ℕ → Cmd (ℕ × ℕ)
  add none lh v = pure (0, lh)
  add (some e) lh v = do
    store e (some (elem_of 0 v))
    lh' ← insert lh e
    check_loop lh'
    pure (e, lh')

  -- `lrcu_list_unlink_next`: the new head. Behind an element, `t->next` is read after it was cleared.
  unfoldable pub unlink_next : ℕ → ℕ → Cmd ℕ
  unlink_next lh e =
      if e == 0
      then (do ensure (not (lh == 0)); t ← load lh; set_next lh 0; check_loop t.next; pure t.next)
      else (do
        x ← load e
        ensure (not (x.next == 0))
        set_next x.next 0
        t ← load x.next
        set_next e t.next
        check_loop lh
        pure lh)

  -- The end of `lrcu_list_splice`: the two heads.
  unfoldable pub spliced : ℕ → Cmd (ℕ × ℕ)
  spliced lh = do check_loop lh; check_loop null; pure (lh, null)

  -- `lrcu_list_splice`
  unfoldable pub splice : ℕ → ℕ → Cmd (ℕ × ℕ)
  splice lh lt = if is_null lt then pure (lh, lt) else if is_null lh then spliced lt else do
    e_prev ← get_tail lh
    ensure (not (e_prev == 0))
    check_loop lh
    set_next e_prev lt
    spliced lh

  -- The loop of `__lrcu_list_find_ptr_unlink`: the element found and the new head.
  unfoldable pub find_rounds : ℕ → Bool → ℕ → ℕ → ℕ → ℕ → Cmd (ℕ × ℕ)
  find_rounds p unlinks zero lh n n_prev = lift out_of_fuel
  find_rounds p unlinks (suc k) lh n n_prev = do
    (r, n', prev') ← advance n n_prev lh
    if r == 0 then pure (0, lh) else do
      x ← load r
      if x.value == p
          then (if unlinks then (do lh' ← unlink_next lh prev'; pure (n', lh')) else pure (n', lh))
          else find_rounds p unlinks k lh n' prev'

  -- `__lrcu_list_find_ptr_unlink`
  unfoldable pub find_ptr_unlink : ℕ → ℕ → Bool → Cmd (ℕ × ℕ)
  find_ptr_unlink lh p unlinks = find_rounds p unlinks fuel lh lh 0
