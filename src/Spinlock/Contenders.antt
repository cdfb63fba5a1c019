-- ===== src/Spinlock/Contenders.antt =====
-- src/spinlock.c: threads that contend for a lock, interleaved at each access to its word.
pub mod Queue
pub mod Moves
pub mod Simulation
pub mod Exclusion
use light_rcu.Prelude.{ℕ, zero, suc, ◌+◌, ◌<◌, ◌≡◌, Bool, true, false, ◌==◌, if◌then◌else◌, update}
use light_rcu.Spinlock.{Spinlock, draw, is_served, spin_unlock, swap, unlocked}

-- Where a thread stands: outside; in `lrcu_spin_trylock` with the `users` that it read; in the loop
-- of `lrcu_spin_lock` with its ticket; behind either one with the lock.
pub data LockPc : Type 0 where
  away : LockPc
  trying waiting : ℕ → LockPc
  holding : LockPc

pub record Contenders : Type 0 where
  pub lock : Spinlock
  pub pcs : ℕ → LockPc

-- A thread behind the swap, by the result of `lrcu_spin_trylock`.
abbrev pub tried : ℕ → LockPc
tried r = if r == 0 then holding else away

-- The system after a step of thread `i`.
abbrev pub moved : Contenders → ℕ → LockPc → Spinlock → Contenders
moved s i p l = record { lock = l; pcs = update s.pcs i p }

-- A step of one of `n` threads.
pub data LockStep (n : ℕ) (s : Contenders) : Contenders → Type 0 where
  xadd :
      (i : ℕ)
      → i < n
      → s.pcs i ≡ away
      → LockStep n s (moved s i (waiting (draw s.lock).0) (draw s.lock).1)
  enter :
      (i me : ℕ)
      → i < n
      → s.pcs i ≡ waiting me
      → is_served s.lock me ≡ true
      → LockStep n s (moved s i holding s.lock)
  relax : (i me : ℕ) → i < n → s.pcs i ≡ waiting me → is_served s.lock me ≡ false → LockStep n s s
  unlock : (i : ℕ) → i < n → s.pcs i ≡ holding → LockStep n s (moved s i away (spin_unlock s.lock))
  read_users :
      (i : ℕ) → i < n → s.pcs i ≡ away → LockStep n s (moved s i (trying s.lock.users) s.lock)
  try_swap :
      (i me : ℕ)
      → i < n
      → s.pcs i ≡ trying me
      → LockStep n s (moved s i (tried (swap me s.lock).0) (swap me s.lock).1)

abbrev pub idle_lock : Contenders
idle_lock = record { lock = unlocked; pcs = λ i. away }

pub data LockReach (n : ℕ) : Contenders → Type 0 where
  fresh : LockReach n idle_lock
  after : {s t : Contenders} → LockReach n s → LockStep n s t → LockReach n t
