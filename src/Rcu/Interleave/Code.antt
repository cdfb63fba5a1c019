-- ===== src/Rcu/Interleave/Code.antt =====
-- The functions of Rcu/Reader and Rcu/Writer as sequences of steps of the interleaved system, with no
-- other step in between.
use light_rcu.Prelude.{
  ℕ, ◌+◌, ◌<◌, ◌≡◌, ◌⊎◌, inl, inr, refl, sym, Bool-cases, ==→eq, some, subst, ◌==◌, true, false, ok,
  arith,
}
use light_rcu.Rcu.State.{LocalNs, ThreadInfo, World, M, pure, ◌>>=◌, ◌>>◌}
use light_rcu.Rcu.Reader.{i32_end, nest, leave, set_lns, read_lock_ns, read_unlock_ns, dereference}
use light_rcu.Rcu.Reader.Nesting.{CanRead, entered, with_lns, read_lock_lem, read_unlock_lem}
use light_rcu.Rcu.Interleave.{
  Thread, outside, inside, include, Move, count, load, store, deref, nest_more, nest_less,
  leave_last,
}

-- Any number of steps of a reader.
pub data Moves (version : ℕ) (cells : ℕ → ℕ) (t : Thread) : Thread → Type 0 where
  stay : Moves version cells t t
  go : {u v : Thread} → Moves version cells t u → Move version cells u v → Moves version cells t v

-- Between two calls a thread is outside with the counter 0, or inside with another one.
abbrev pub IsPlaced : Thread → Type 0
IsPlaced t = ((t.pc ≡ outside) × (t.lns.counter ≡ 0)) ⊎ ((t.pc ≡ inside) × (0 < t.lns.counter))

module _ (w : World) (me id : ℕ) (s : CanRead w me id) (cells : ℕ → ℕ) (t : Thread) where
  pub read_lock-Moves :
      t.lns ≡ s.info.lns id
      → IsPlaced t
      → t.lns.counter + 1 < i32_end
      → (t' : Thread) × Moves s.ns.version cells t t'
        × (read_lock_ns me id w ≡ ok (tt, with_lns w s.t s.info id t'.lns))
        × (t'.pc ≡ inside)
        × (0 < t'.lns.counter)
  unfolding nest
  read_lock-Moves same placed nests =
      let runs =
        read_lock_lem w me id s (subst (λ (l : LocalNs). l.counter + 1 < i32_end) same nests) in
      let runs' =
        subst
          (λ (l : LocalNs).
            read_lock_ns me id w ≡ ok (tt, with_lns w s.t s.info id (entered s.ns.version l)))
          (sym same) runs in
      elim placed [
        | inl (out, zero) ↦
            let first : (t.lns.counter == 0) ≡ true = ground arith in
            (
              record t {
                lns = record { version = s.ns.version; counter = t.lns.counter + 1 };
                pc = inside;
              },
              go (go (go stay (count out)) (load refl)) (store s.ns.version refl),
              rw first at runs',
              refl,
              omega arith,
            )
        | inr (in_section, pos) ↦
            let later : (t.lns.counter == 0) ≡ false = ground arith in
            (
              record t { lns = nest t.lns },
              go stay (nest_more in_section),
              rw later at runs',
              in_section,
              omega arith,
            )
      ]

  pub read_unlock-Moves :
      t.lns ≡ s.info.lns id
      → IsPlaced t
      → 0 < t.lns.counter
      → (t' : Thread) × Moves s.ns.version cells t t'
        × (read_unlock_ns me id w ≡ ok (tt, with_lns w s.t s.info id t'.lns))
        × IsPlaced t'
  unfolding leave
  read_unlock-Moves same placed pos =
      let runs = read_unlock_lem w me id s (subst (λ (l : LocalNs). 0 < l.counter) same pos) in
      let runs' =
        subst
          (λ (l : LocalNs). read_unlock_ns me id w ≡ ok (tt, with_lns w s.t s.info id (leave l)))
          (sym same) runs in
      elim placed [
        | inl (out, zero) ↦ absurd (omega arith)
        | inr (in_section, more) ↦ elim (Bool-cases (t.lns.counter == 1)) [
          | inl last ↦ (
            record t { lns = leave t.lns; pc = outside; holds = λ p. false },
            go stay (leave_last in_section (==→eq t.lns.counter 1 last)),
            runs',
            inl (refl, ground arith),
          )
          | inr deep ↦ (
            record t { lns = leave t.lns },
            go stay (nest_less in_section (ground arith)),
            runs',
            inr (in_section, ground arith),
          )
        ]
      ]

module _ (w : World) (me id c : ℕ) (s : CanRead w me id) (l : LocalNs) where
  -- The store in a section.
  abbrev in_section : World
  in_section = with_lns w s.t s.info id l

  in_section-CanRead : CanRead in_section me id
  in_section-CanRead = record {
    hp = s.hp;
    h = s.h;
    p = s.p;
    ns = s.ns;
    t = s.t;
    info = set_lns s.info id l;
    handler_eq = s.handler_eq;
    handlers_eq = s.handlers_eq;
    id_fits = s.id_fits;
    ns_eq = s.ns_eq;
    namespaces_eq = s.namespaces_eq;
    tls_eq = s.tls_eq;
    infos_eq = let same : (s.t == s.t) ≡ true = ground arith in rw same refl;
  }

-- A read section of the code: `lrcu_read_lock_ns`, `lrcu_dereference`, `lrcu_read_unlock_ns`.
abbrev pub read_section : ℕ → ℕ → ℕ → M ℕ
read_section me id c = do read_lock_ns me id; p ← dereference c; read_unlock_ns me id; pure p

-- Where the handler, the namespace and the thread's information exist and the counter does not
-- overflow, a read section that reads a protected pointer ends normally with that pointer. A thread of
-- the interleaved system with the same `lns` can take steps that give it the pointer to hold, and then
-- steps after which it has the `lns` that the code leaves, and stands outside if the counter is 0.
pub read_section-Moves :
    (w : World) (me id c : ℕ) (s : CanRead w me id) (t : Thread)
    → t.lns ≡ s.info.lns id
    → IsPlaced t
    → t.lns.counter + 1 < i32_end
    → (u v : Thread) × Moves s.ns.version w.cells t u
      × (u.holds (w.cells c) ≡ true)
      × Moves s.ns.version w.cells u v
      × (w' : World) × (read_section me id c w ≡ ok (w.cells c, w'))
      × (info : ThreadInfo) × (w'.infos s.t ≡ some info)
      × (info.lns id ≡ v.lns)
      × IsPlaced v
unfolding dereference in_section-CanRead
read_section-Moves w me id c s t same placed nests =
    let (x, m, locks, in_x, pos) = read_lock-Moves w me id s w.cells t same placed nests in
    let here : (id == id) ≡ true = ground arith in
    let self : (s.t == s.t) ≡ true = ground arith in
    let held : (w.cells c == w.cells c) ≡ true = ground arith in
    let u : Thread = record x { holds = include (w.cells c) x.holds } in
    let (v, m', unlocks, placed') =
      read_unlock-Moves (in_section w me id c s x.lns) me id (in_section-CanRead w me id c s x.lns)
        w.cells u (rw here refl) (inr (in_x, pos)) pos in
    (
      u,
      v,
      go m (deref c in_x),
      rw held refl,
      m',
      with_lns (in_section w me id c s x.lns) s.t (set_lns s.info id x.lns) id v.lns,
      rw (locks, unlocks) refl,
      set_lns (set_lns s.info id x.lns) id v.lns,
      rw self refl,
      rw here refl,
      placed',
    )
