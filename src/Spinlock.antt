-- ===== src/Spinlock.antt =====
-- src/spinlock.c and src/spinlock.h: a ticket lock of two `u16` in one `u32` word. Atomic builtins
-- are single steps; on the little-endian targets of `compiler.h` `ticket` is the low half.
pub mod Word
pub mod Contenders
use light_rcu.Prelude.{
  ℕ, ◌+◌, ◌*◌, ◌/◌, ◌%◌, ◌^◌, ◌≡◌, Bool, ◌==◌, if◌then◌else◌, Run, ok, out_of_fuel,
}

-- `lrcu_spinlock_t`
pub record Spinlock : Type 0 where
  pub ticket : ℕ
  pub users : ℕ

abbrev pub u16_mod : ℕ
u16_mod = 2 ^ 16

-- `LRCU_SPINLOCK_INITIALIZER`
abbrev pub unlocked : Spinlock
unlocked = record { ticket = 0; users = 0 }

-- `lrcu_atomic_xadd(&t->s.users, 1)`: the ticket drawn, and the lock after it.
unfoldable pub draw : Spinlock → ℕ × Spinlock
draw t = (t.users, record t { users = (t.users + 1) % u16_mod })

-- The test of the loop in `lrcu_spin_lock`.
unfoldable pub is_served : Spinlock → ℕ → Bool
is_served t me = t.ticket == me

-- `lrcu_spin_lock` by a thread that runs alone: with no other thread to unlock, a lock that is not
-- free is never got.
unfoldable pub spin_lock : Spinlock → Run Spinlock
unfolding draw is_served
spin_lock t = let (me, t') = draw t in if is_served t' me then ok t' else out_of_fuel

-- `lrcu_spin_unlock`
unfoldable pub spin_unlock : Spinlock → Spinlock
spin_unlock t = record t { ticket = (t.ticket + 1) % u16_mod }

-- The member `u` of the union, and the two counters in a value of it.
unfoldable pub word_of : Spinlock → ℕ
word_of t = t.users * u16_mod + t.ticket

unfoldable pub of_word : ℕ → Spinlock
of_word u = record { ticket = u % u16_mod; users = u / u16_mod }

-- `lrcu_cmpxchg(&t->u, cmp, cmpnew)`: the old word, and the lock after it.
unfoldable pub cmpxchg : Spinlock → ℕ → ℕ → ℕ × Spinlock
unfolding word_of of_word
cmpxchg t cmp cmpnew = (word_of t, if word_of t == cmp then of_word cmpnew else t)

-- `lrcu_spin_trylock` behind its read of `users`.
unfoldable pub swap : ℕ → Spinlock → ℕ × Spinlock
unfolding cmpxchg
swap me t =
    let menew = (me + 1) % u16_mod in
    let cmp = me * u16_mod + me in
    let cmpnew = menew * u16_mod + me in
    let (old, t') = cmpxchg t cmp cmpnew in if old == cmp then (0, t') else (1, t')

-- `lrcu_spin_trylock`: 0 if the lock is got.
unfoldable pub spin_trylock : Spinlock → ℕ × Spinlock
unfolding swap
spin_trylock t = swap t.users t

-- `lrcu_spin_lockable`
unfoldable pub spin_lockable : Spinlock → Bool
spin_lockable t = t.ticket == t.users
