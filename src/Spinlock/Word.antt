-- ===== src/Spinlock/Word.antt =====
-- The lock of one thread: what `lrcu_spin_trylock` and `lrcu_spin_lock` do to the two counters.
use light_rcu.Prelude.{ℕ, ◌+◌, ◌%◌, ◌<◌, ◌≡◌, ok, arith, ap, if◌then◌else◌}
use light_rcu.Spinlock.{Spinlock, u16_mod, spin_lock, spin_unlock, spin_trylock, spin_lockable}

-- Both counters are `u16`.
pub record Fits (t : Spinlock) : Type 0 where
  pub ticket_fits : t.ticket < u16_mod
  pub users_fits : t.users < u16_mod

-- No ticket is drawn that has not been served.
abbrev pub IsFree : Spinlock → Type 0
IsFree t = t.ticket ≡ t.users

abbrev pub taken : Spinlock → Spinlock
taken t = record t { users = (t.users + 1) % u16_mod }

-- `lrcu_spin_trylock` on a lock whose counters fit in `u16` gets it exactly when it is free, with the
-- ticket drawn; otherwise it returns 1 and leaves the lock as it is.
pub spin_trylock_lem :
    (t : Spinlock) → Fits t → spin_trylock t ≡ (if spin_lockable t then (0, taken t) else (1, t))
unfolding spin_trylock spin_lockable
spin_trylock_lem t f = ground arith

pub spin_lock-free : (t : Spinlock) → IsFree t → spin_lock t ≡ ok (taken t)
unfolding spin_lock
spin_lock-free t e = ground arith

-- A lock that is taken and released by one thread is free again.
pub spin_unlock-IsFree : (t : Spinlock) → IsFree t → IsFree (spin_unlock (taken t))
unfolding spin_unlock
spin_unlock-IsFree t e = ap (λ (n : ℕ). (n + 1) % u16_mod) e
