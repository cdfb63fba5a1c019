-- ===== src/Rcu/Sync/Timer.antt =====
-- src/lrcu.c, include/lrcu/user.h, include/lrcu/linux.h: the detection of hung threads, with the timer
-- macros of either platform. The rest of the development has those of user.h.
use light_rcu.Prelude.{
  ℕ, ◌+◌, ◌≡◌, ◌≢◌, refl, Bool, true, false, not, ◌&&◌, Bool-cases, inl, inr, ltb, leb, ◌==◌,
  if◌then◌else◌, update, arith,
}
use light_rcu.Rcu.State.{ThreadInfo}
use light_rcu.Rcu.Sync.{hang_timeout, hangs, busy_info, idle_info}

-- What the macros do with the timer of a thread: `LRCU_TIMER_ISSET` of its address and its content, the
-- content behind `LRCU_TIMER_GET` at a time, and behind `LRCU_TIMER_CLEAR`; and the outcome of
-- `!LRCU_TIMER_CMP(&now, &timer_expires, <)`.
pub record Timer : Type 0 where
  pub isset : ℕ → ℕ → Bool
  pub get : ℕ → ℕ → ℕ
  pub clear : ℕ → ℕ
  pub expired : ℕ → ℕ → Bool

-- The macros of user.h, by what `timerisset`, `gettimeofday`, `timerclear` and `timercmp` do.
abbrev pub user_timer : Timer
user_timer = record {
  isset = λ address t. not (t == 0);
  get = λ now t. now;
  clear = λ t. 0;
  expired = λ now t. not (ltb now t);
}

-- The macros of linux.h: the test is on the address, the time is not stored, and what is cleared is the
-- variable that has the address. The comparison is one of addresses, whose outcome is `unknown`.
abbrev pub linux_timer : (ℕ → ℕ → Bool) → Timer
linux_timer unknown = record {
  isset = λ address t. address == 0;
  get = λ now t. t;
  clear = λ t. t;
  expired = unknown;
}

-- What the first loop of `__lrcu_get_synchronized` writes of a thread, and whether the thread hangs.
unfoldable pub visit : Timer → ℕ → ℕ → ℕ → ℕ → ThreadInfo → Bool × ThreadInfo
visit o address ns_id now current ti =
    let t = ti.timeval ns_id in
    if (ti.lns ns_id).counter == 0
    then (false, record ti { timeval = update ti.timeval ns_id (o.clear t) })
    else (
      o.isset address t
          && leb (ti.lns ns_id).version (ti.hung_lns ns_id).version
          && o.expired now (t + hang_timeout),
      record ti {
        timeval = if o.isset address t then ti.timeval else update ti.timeval ns_id (o.get now t);
        hung_lns = update ti.hung_lns ns_id (record (ti.lns ns_id) { version = current });
      },
    )

-- At an address that is not null: with the macros of user.h, a thread in a read section hangs if its
-- timer is set and has expired and it has entered no section at a later version than that of the last
-- visit, and its timer is set if it was not; the timer of another thread is cleared. With the macros of
-- linux.h, no thread hangs at any time, and its timer stays as it is.
pub visit_lem :
    (address ns_id now current : ℕ) (ti : ThreadInfo) (unknown : ℕ → ℕ → Bool)
    → address ≢ 0
    → (visit user_timer address ns_id now current ti ≡ (
        if (ti.lns ns_id).counter == 0
        then (false, idle_info ns_id ti)
        else (hangs ns_id now ti, busy_info ns_id current now ti)))
      × ((visit (linux_timer unknown) address ns_id now current ti).0 ≡ false)
      × ((visit (linux_timer unknown) address ns_id now current ti).1.timeval ns_id
          ≡ ti.timeval ns_id)
unfolding visit hangs busy_info idle_info
visit_lem address ns_id now current ti unknown there =
    let z : (address == 0) ≡ false = ground arith in
    let i : (ns_id == ns_id) ≡ true = ground arith in
    elim (Bool-cases ((ti.lns ns_id).counter == 0)) [
      | inl idle ↦ (rw idle refl, rw idle refl, rw idle (rw i refl))
      | inr busy ↦ elim (Bool-cases (ti.timeval ns_id == 0)) [
        | inl unset ↦ (rw (busy, unset) refl, rw (busy, z) refl, rw (busy, z) (rw i refl))
        | inr is_set ↦ (rw (busy, is_set) refl, rw (busy, z) refl, rw (busy, z) (rw i refl))
      ]
    ]
