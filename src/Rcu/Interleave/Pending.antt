-- ===== src/Rcu/Interleave/Pending.antt =====
-- What is known of a pointer that was taken out of its cell, and of a request for it.
use light_rcu.Prelude.{
  ℕ, ◌≤◌, ◌<◌, ◌≡◌, ◌≢◌, sym, ap, subst, Bool, true, false, Bool-cases, inl, inr, Option, some,
  List, [], ◌∷◌, All, arith,
}
use light_rcu.Rcu.State.{LrcuPtr}
use light_rcu.Rcu.Interleave.{Sys, Thread}

-- The pointer was published once, and no cell has it any more.
pub record Removed (s : Sys) (p : ℕ) : Type 0 where
  pub off : (c : ℕ) → s.cells c ≢ p
  pub was_used : s.used p ≡ true

-- A request for such a pointer: a thread that still holds it entered its section at a version up to
-- that of the request.
pub record Guarded (s : Sys) (q : LrcuPtr) : Type 0 where
  pub removed : Removed s q.ptr
  pub made : q.version ≤ s.version
  pub holders : (i : ℕ) → (s.threads i).holds q.ptr ≡ true → (s.threads i).lns.version ≤ q.version

-- What the worker has copied of a thread that holds the pointer makes it block the request.
pub record Seen (s : Sys) (current : ℕ) (q : LrcuPtr) : Type 0 where
  pub made : q.version ≤ current
  pub versions :
      (i v : ℕ) → (s.threads i).holds q.ptr ≡ true → s.seen_version i ≡ some v → v ≤ q.version
  pub counters : (i c : ℕ) → (s.threads i).holds q.ptr ≡ true → s.seen_counter i ≡ some c → 0 < c

-- The pointer is in no cell, and no thread holds it.
pub record Gone (s : Sys) (p : ℕ) : Type 0 where
  pub removed : Removed s p
  pub unheld : (i : ℕ) → (s.threads i).holds p ≡ false

-- A step that gives no thread the pointer, and leaves the sections of those that hold it.
pub record Frame (s s' : Sys) (p : ℕ) : Type 0 where
  pub version_le : s.version ≤ s'.version
  pub removed : Removed s' p
  pub holders :
      (i : ℕ)
      → (s'.threads i).holds p ≡ true
      → ((s.threads i).holds p ≡ true) × ((s'.threads i).lns.version ≡ (s.threads i).lns.version)

pub Frame-same :
    (s s' : Sys) (p : ℕ)
    → s.version ≤ s'.version
    → s'.cells ≡ s.cells
    → s'.used ≡ s.used
    → s'.threads ≡ s.threads
    → Removed s p
    → Frame s s' p
Frame-same s s' p le cells used threads r = record {
  version_le = le;
  removed = record {
    off = λ c. subst (λ (f : ℕ → ℕ). f c ≢ p) (sym cells) (r.off c);
    was_used = subst (λ (f : ℕ → Bool). f p ≡ true) (sym used) r.was_used;
  };
  holders = λ i h. (
    subst (λ (f : ℕ → Thread). (f i).holds p ≡ true) threads h,
    ap (λ (f : ℕ → Thread). (f i).lns.version) threads,
  );
}

pub All-mono {ℓ} :
    {A : Type ℓ} (P Q : A → Type 0) (xs : List A) → ((x : A) → P x → Q x) → All P xs → All Q xs
All-mono P Q [] f h = tt
All-mono P Q (x ∷ xs) f h = (f x h.0, All-mono P Q xs f h.1)

module _ (s s' : Sys) (frame : (p : ℕ) → Removed s p → Frame s s' p) where
  pub Frame-Guarded : (q : LrcuPtr) → Guarded s q → Guarded s' q
  Frame-Guarded q g =
      let f = frame q.ptr g.removed in
      record {
        removed = f.removed;
        made = omega (arith, f.version_le, g.made);
        holders = λ i h. let (held, same) = f.holders i h in omega (arith, g.holders i held, same);
      }

  pub Frame-Guarded-All : (xs : List LrcuPtr) → All (Guarded s) xs → All (Guarded s') xs
  Frame-Guarded-All xs = All-mono (Guarded s) (Guarded s') xs Frame-Guarded

  pub Frame-Gone : (p : ℕ) → Gone s p → Gone s' p
  Frame-Gone p g =
      let f = frame p g.removed in
      record {
        removed = f.removed;
        unheld = λ i. elim (Bool-cases ((s'.threads i).holds p)) [
          | inl yes_held ↦ let (held, _) = f.holders i yes_held in let n = g.unheld i in cc
          | inr not_held ↦ not_held
        ];
      }

  -- As long as the copies are the same.
  pub Frame-Seen :
      (current : ℕ) (q : LrcuPtr)
      → s'.seen_version ≡ s.seen_version
      → s'.seen_counter ≡ s.seen_counter
      → Removed s q.ptr
      → Seen s current q
      → Seen s' current q
  Frame-Seen current q versions counters r g =
      let f = frame q.ptr r in
      record {
        made = g.made;
        versions = λ i v h e.
            g.versions i v (f.holders i h).0
              (subst (λ (k : ℕ → Option ℕ). k i ≡ some v) versions e);
        counters = λ i c h e.
            g.counters i c (f.holders i h).0
              (subst (λ (k : ℕ → Option ℕ). k i ≡ some c) counters e);
      }

  pub Frame-Seen-All :
      (current : ℕ) (xs : List LrcuPtr)
      → s'.seen_version ≡ s.seen_version
      → s'.seen_counter ≡ s.seen_counter
      → All (Guarded s) xs
      → All (Seen s current) xs
      → All (Seen s' current) xs
  Frame-Seen-All current [] versions counters g h = tt
  Frame-Seen-All current (x ∷ xs) versions counters g h = (
    Frame-Seen current x versions counters g.0.removed h.0,
    Frame-Seen-All current xs versions counters g.1 h.1,
  )
