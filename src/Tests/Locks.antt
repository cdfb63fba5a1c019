-- ===== src/Tests/Locks.antt =====
-- Two threads at one lock: the first has it, the second waits.
use light_rcu.Prelude.{ℕ, ◌≡◌, ◌≤◌, refl, inr, [], ◌∷◌, arith}
use light_rcu.Spinlock.{u16_mod, draw, is_served, spin_unlock}
use light_rcu.Spinlock.Contenders.{
  Contenders, moved, away, waiting, holding, xadd, enter, unlock, idle_lock, LockReach, fresh,
  after,
}
use light_rcu.Spinlock.Contenders.Queue.{Queued}
use light_rcu.Spinlock.Contenders.Simulation.{Simulates, LockStep-Simulates}
use light_rcu.Spinlock.Contenders.Exclusion.{LockReach-exclusion}

two_small : 2 ≤ u16_mod
two_small = omega arith

abbrev drawn : Contenders
drawn = moved idle_lock 0 (waiting 0) (record { ticket = 0; users = 1 })

abbrev entered : Contenders
entered = moved drawn 0 holding (record { ticket = 0; users = 1 })

abbrev contended : Contenders
contended = moved entered 1 (waiting 1) (record { ticket = 0; users = 2 })

drawn-LockReach : LockReach 2 drawn
unfolding draw
drawn-LockReach = after fresh (xadd 0 (omega arith) refl)

entered-LockReach : LockReach 2 entered
unfolding is_served
entered-LockReach = after drawn-LockReach (enter 0 0 (omega arith) refl refl)

contended-LockReach : LockReach 2 contended
unfolding draw
contended-LockReach = after entered-LockReach (xadd 1 (omega arith) refl)

LockReach-exclusion_example : ◌≡◌ {A = ℕ} 0 0
LockReach-exclusion_example = LockReach-exclusion two_small contended-LockReach 0 0 refl refl

contended-Queued : Queued 2 contended 0 (0 ∷ 1 ∷ [])
contended-Queued = record {
  ticket_ok = refl;
  users_ok = refl;
  front = (inr refl, (refl, tt));
  distinct = (refl, (refl, tt));
  others = λ i m. ground arith;
  reads = λ i. ground arith;
  size = refl;
}

LockStep-Simulates_example :
    Simulates 2 (moved contended 0 away (spin_unlock contended.lock)) (0 ∷ 1 ∷ [])
LockStep-Simulates_example =
    LockStep-Simulates two_small contended-Queued (unlock 0 (omega arith) refl)
