-- ===== src/Rcu/Interleave/Atomic.antt =====
-- src/lrcu.c: the worker's `ns->version++` as two accesses, where no other thread raises the version
-- between them, as an atomic increment would have it.
use light_rcu.Prelude.{ℕ, ◌+◌, ◌≡◌, ◌≢◌, sym, subst, true, false, Option}
use light_rcu.Rcu.Interleave.{Sys, barrier, Start, Reach, here, later}
use light_rcu.Rcu.Interleave.Safety.{Reach-Gone}
use light_rcu.Rcu.Interleave.Race.{RacyReach, begin, next, step, read_version, write_version}

-- Where the worker writes the version back, it is still the one that the worker has read.
abbrev pub Undisturbed : {n : ℕ} {s t : Sys} {b : Option ℕ} → RacyReach n s t b → Type 0
Undisturbed begin = Unit
Undisturbed (next r (step st)) = Undisturbed r
Undisturbed (next r (read_version s)) = Undisturbed r
Undisturbed (next r (write_version s v)) = Undisturbed r × (v ≡ s.version)

Undisturbed-Reach :
    {n : ℕ} {s t : Sys} {b : Option ℕ}
    → Start s
    → (r : RacyReach n s t b) → Undisturbed r
    → Reach n t
Undisturbed-Reach h begin u = here h
Undisturbed-Reach h (next r (step st)) u = later (Undisturbed-Reach h r u) st
Undisturbed-Reach h (next r (read_version s)) u = Undisturbed-Reach h r u
Undisturbed-Reach {n} h (next r (write_version s v)) u =
    subst (λ (x : ℕ). Reach n (record s { version = x + 1 })) (sym u.1)
      (later (Undisturbed-Reach h r u.0) barrier)

-- Where the worker takes no thread to hang and the version does not wrap: in every state that is reached
-- from a start by interleaved steps of readers, writers and the worker, whose `ns->version++` is a read
-- and a later write, if no other thread has raised the version between such a read and its write, then an
-- object whose destructor was called is held by no thread and is in no protected pointer.
pub RacyReach-Gone :
    {n : ℕ} {s t : Sys} {b : Option ℕ}
    → Start s
    → (r : RacyReach n s t b) → Undisturbed r
    → (p : ℕ) → t.called p ≡ true
    → ((i : ℕ) → (t.threads i).holds p ≡ false) × ((c : ℕ) → t.cells c ≢ p)
RacyReach-Gone h r u = Reach-Gone (Undisturbed-Reach h r u)
