-- ===== src/Rcu/Reader/Nesting.antt =====
-- Read sections nest: what `lrcu_read_lock_ns` and `lrcu_read_unlock_ns` leave of a thread.
use light_rcu.Prelude.{
  ℕ, ◌+◌, ◌-◌, ◌<◌, ◌≡◌, ◌≢◌, refl, sym, subst, true, false, some, ◌==◌, lt→ltb, if◌then◌else◌,
  update, ok, arith, Bool-cases, inl, inr, assert_failed,
}
use light_rcu.Rcu.State.{LocalNs, ThreadInfo, Namespace, Handler, World, ◌>>◌}
use light_rcu.Rcu.Reader.{i32_end, nest, enter, leave, set_lns, read_lock_ns, read_unlock_ns}

-- The handler and the namespace exist, and the thread `me` has its information.
pub record CanRead (w : World) (me id : ℕ) : Type 0 where
  pub hp : ℕ
  pub h : Handler
  pub p : ℕ
  pub ns : Namespace
  pub t : ℕ
  pub info : ThreadInfo
  pub handler_eq : w.handler ≡ some hp
  pub handlers_eq : w.handlers hp ≡ some h
  pub id_fits : id < w.ns_max
  pub ns_eq : h.ns id ≡ some p
  pub namespaces_eq : w.namespaces p ≡ some ns
  pub tls_eq : w.tls me ≡ some t
  pub infos_eq : w.infos t ≡ some info

-- The thread's section after an entrance at a version.
abbrev pub entered : ℕ → LocalNs → LocalNs
entered version l =
    if l.counter == 0
    then record { version = version; counter = l.counter + 1 }
    else record { version = l.version; counter = l.counter + 1 }

abbrev pub with_lns : World → ℕ → ThreadInfo → ℕ → LocalNs → World
with_lns w t info id l = record w { infos = update w.infos t (some (set_lns info id l)) }

module _ (w : World) (me id : ℕ) (s : CanRead w me id) where
  pub read_lock_lem :
      (s.info.lns id).counter + 1 < i32_end
      → read_lock_ns me id w
        ≡ ok (tt, with_lns w s.t s.info id (entered s.ns.version (s.info.lns id)))
  unfolding read_lock_ns nest enter
  read_lock_lem nests =
      rw
        (
          s.handler_eq,
          s.handlers_eq,
          lt→ltb id w.ns_max s.id_fits,
          s.ns_eq,
          s.tls_eq,
          s.infos_eq,
          lt→ltb ((s.info.lns id).counter + 1) i32_end nests,
        )
        (elim (Bool-cases ((s.info.lns id).counter == 0)) [
          | inl first ↦
              let e : ((s.info.lns id).counter + 1 == 1) ≡ true = ground arith in
              rw (first, e, s.namespaces_eq) refl
          | inr later ↦
              let e : ((s.info.lns id).counter + 1 == 1) ≡ false = ground arith in
              rw (later, e) refl
        ])

  pub read_unlock_lem :
      0 < (s.info.lns id).counter
      → read_unlock_ns me id w ≡ ok (tt, with_lns w s.t s.info id (leave (s.info.lns id)))
  unfolding read_unlock_ns
  read_unlock_lem inside =
      let e : ((s.info.lns id).counter == 0) ≡ false = ground arith in
      rw
        (
          s.handler_eq,
          s.handlers_eq,
          lt→ltb id w.ns_max s.id_fits,
          s.ns_eq,
          s.tls_eq,
          s.infos_eq,
          e,
        )
        refl

  -- Where a section that is not open is left, the assertion on the counter fails.
  pub read_unlock-outside : (s.info.lns id).counter ≡ 0 → read_unlock_ns me id w ≡ assert_failed
  unfolding read_unlock_ns
  read_unlock-outside outside =
      rw
        (
          s.handler_eq,
          s.handlers_eq,
          lt→ltb id w.ns_max s.id_fits,
          s.ns_eq,
          s.tls_eq,
          s.infos_eq,
          outside,
        )
        refl

module _ (w : World) (me id : ℕ) (s : CanRead w me id) where
  abbrev inside : World
  inside = with_lns w s.t s.info id (entered s.ns.version (s.info.lns id))

  inside-CanRead : CanRead inside me id
  inside-CanRead = record {
    hp = s.hp;
    h = s.h;
    p = s.p;
    ns = s.ns;
    t = s.t;
    info = set_lns s.info id (entered s.ns.version (s.info.lns id));
    handler_eq = s.handler_eq;
    handlers_eq = s.handlers_eq;
    id_fits = s.id_fits;
    ns_eq = s.ns_eq;
    namespaces_eq = s.namespaces_eq;
    tls_eq = s.tls_eq;
    infos_eq = let same : (s.t == s.t) ≡ true = ground arith in rw same refl;
  }

  -- What entering a section and leaving it again changes.
  pub record Left (w' : World) : Type 0 where
    pub info' : ThreadInfo
    pub has_info : w'.infos s.t ≡ some info'
    pub same_counter : (info'.lns id).counter ≡ (s.info.lns id).counter
    pub version_eq :
        (info'.lns id).version
        ≡ (if (s.info.lns id).counter == 0 then s.ns.version else (s.info.lns id).version)
    pub others : (q : ℕ) → q ≢ s.t → w'.infos q ≡ w.infos q
    pub other_ns : (k : ℕ) → k ≢ id → info'.lns k ≡ s.info.lns k
    pub same_namespaces : w'.namespaces ≡ w.namespaces

  -- Where the handler, the namespace and the thread's information exist and the counter does not
  -- overflow, entering a read section and leaving it ends normally with the thread's counter as it
  -- was. Its version is then that of the namespace if it was in no section, and else the one at which
  -- it entered the outermost section. Other threads, other namespaces of the thread, and the
  -- namespaces themselves stay as they are.
  pub read_lock-read_unlock :
      (s.info.lns id).counter + 1 < i32_end
      → (w' : World) × ((read_lock_ns me id >> read_unlock_ns me id) w ≡ ok (tt, w')) × Left w'
  unfolding inside-CanRead
  read_lock-read_unlock nests =
      let open_lns = entered s.ns.version (s.info.lns id) in
      let here : (id == id) ≡ true = ground arith in
      let same : (s.t == s.t) ≡ true = ground arith in
      let e : (update s.info.lns id open_lns) id ≡ open_lns = rw here refl in
      let back : open_lns.counter - 1 ≡ (s.info.lns id).counter = ground arith in
      let pos : 0 < open_lns.counter = ground arith in
      let runs =
        read_unlock_lem inside me id inside-CanRead
          (subst (λ (l : LocalNs). 0 < l.counter) (sym e) pos) in
      (
        with_lns inside s.t (set_lns s.info id open_lns) id
            (leave (update s.info.lns id open_lns id)),
        rw (read_lock_lem w me id s nests) runs,
        record {
          info' =
              set_lns (set_lns s.info id open_lns) id (leave (update s.info.lns id open_lns id));
          has_info = rw same refl;
          same_counter = unfold leave in rw here back;
          version_eq = unfold leave in rw here (ground arith);
          others = λ q n. ground arith;
          other_ns = λ k n. ground arith;
          same_namespaces = refl;
        },
      )
