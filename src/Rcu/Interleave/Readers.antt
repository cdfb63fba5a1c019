-- ===== src/Rcu/Interleave/Readers.antt =====
-- A reader's step: the pointers that it holds, and the version of its section.
use light_rcu.Prelude.{
  ℕ, ◌≤◌, ◌<◌, ◌≡◌, ◌≢◌, refl, sym, ◌⊎◌, inl, inr, true, Bool-cases, ==→eq, ◌==◌, arith,
}
use light_rcu.Rcu.Reader.{nest, leave}
use light_rcu.Rcu.Interleave.{
  Thread, outside, loaded, inside, Move, count, load, store, deref, nest_more, nest_less,
  leave_last,
}

-- A thread as the code keeps it, when the namespace has a version.
pub record ThreadOk (version : ℕ) (t : Thread) : Type 0 where
  pub entered_at : t.lns.version ≤ version
  pub loaded_at : (v : ℕ) → t.pc ≡ loaded v → v ≤ version
  pub open_section : (t.pc ≡ outside) ⊎ (0 < t.lns.counter)
  pub holds_inside : (p : ℕ) → t.holds p ≡ true → t.pc ≡ inside

pub ThreadOk-le : (v w : ℕ) (t : Thread) → v ≤ w → ThreadOk v t → ThreadOk w t
ThreadOk-le v w t le h = record {
  entered_at = omega (arith, h.entered_at);
  loaded_at = λ x e. omega (arith, h.loaded_at x e);
  open_section = h.open_section;
  holds_inside = h.holds_inside;
}

module _ {version : ℕ} {cells : ℕ → ℕ} {t : Thread} where
  pub Move-ThreadOk :
      {t' : Thread} → ThreadOk version t → Move version cells t t' → ThreadOk version t'
  unfolding nest leave
  Move-ThreadOk h (count e) = record {
    entered_at = h.entered_at;
    loaded_at = λ x k. cc;
    open_section = inr (omega arith);
    holds_inside = λ p k. let o = h.holds_inside p k in cc;
  }
  Move-ThreadOk h (load e) = record {
    entered_at = h.entered_at;
    loaded_at = λ x k. ground arith;
    open_section = ground (arith, h.open_section);
    holds_inside = λ p k. let o = h.holds_inside p k in cc;
  }
  Move-ThreadOk h (store v e) = record {
    entered_at = h.loaded_at v e;
    loaded_at = λ x k. cc;
    open_section = ground (arith, h.open_section);
    holds_inside = λ p k. refl;
  }
  Move-ThreadOk h (deref c e) = record {
    entered_at = h.entered_at;
    loaded_at = h.loaded_at;
    open_section = h.open_section;
    holds_inside = λ p k. e;
  }
  Move-ThreadOk h (nest_more e) = record {
    entered_at = h.entered_at;
    loaded_at = h.loaded_at;
    open_section = inr (omega arith);
    holds_inside = h.holds_inside;
  }
  Move-ThreadOk h (nest_less e more) = record {
    entered_at = h.entered_at;
    loaded_at = h.loaded_at;
    open_section = inr (omega arith);
    holds_inside = h.holds_inside;
  }
  Move-ThreadOk h (leave_last e last) = record {
    entered_at = h.entered_at;
    loaded_at = λ x k. cc;
    open_section = inl refl;
    holds_inside = λ p k. cc;
  }

  -- A pointer that is in no cell is not read anew, and the section of a thread that holds it goes on.
  pub Move-keeps :
      {t' : Thread} (p : ℕ)
      → ThreadOk version t
      → ((c : ℕ) → cells c ≢ p)
      → Move version cells t t'
      → t'.holds p ≡ true
      → (t.holds p ≡ true) × (t'.lns.version ≡ t.lns.version)
  unfolding nest leave
  Move-keeps p h off (count e) k = (k, refl)
  Move-keeps p h off (load e) k = (k, refl)
  Move-keeps p h off (store v e) k = let o = h.holds_inside p k in (k, cc)
  Move-keeps p h off (deref c e) k = elim (Bool-cases (p == cells c)) [
    | inl same ↦ absurd (off c (sym (==→eq p (cells c) same)))
    | inr other ↦ (rw other at k, refl)
  ]
  Move-keeps p h off (nest_more e) k = (k, refl)
  Move-keeps p h off (nest_less e more) k = (k, refl)
  Move-keeps p h off (leave_last e last) k = cc
