-- ===== src/Rcu/Interleave/Replace.antt =====
-- A writer's functions of Rcu/Writer as steps of the interleaved system, with no other step in between.
use light_rcu.Prelude.{
  ℕ, length, ◌+◌, ◌<◌, ◌≡◌, refl, sym, ap, ap₂, ◌∙◌, true, false, some, ◌∷◌, map, ◌==◌, update, ok,
  arith,
}
use light_rcu.LinkedList.{check_depth}
use light_rcu.Rcu.State.{LrcuPtr, Namespace, World, ◌>>◌}
use light_rcu.Rcu.Writer.{assign_pointer_ns, call_ns}
use light_rcu.Rcu.Writer.Handover.{CanWrite, assign_pointer-call}
use light_rcu.Rcu.Interleave.{Sys, idle, request, Step, bump, assign, take_version, add}

-- Any number of steps.
pub data Steps (n : ℕ) (s : Sys) : Sys → Type 0 where
  stay : Steps n s s
  go : {t u : Sys} → Steps n s t → Step n t u → Steps n s u

-- What the system keeps of a request.
abbrev pub shorten : LrcuPtr → LrcuPtr
shorten q = request q.ptr q.version

-- The version, the protected pointers and the new requests are the same.
pub record Agrees (ns : Namespace) (cells : ℕ → ℕ) (y : Sys) : Type 0 where
  pub same_version : y.version ≡ ns.version
  pub same_cells : y.cells ≡ cells
  pub same_requests : y.free_list ≡ map shorten ns.free_list

-- Where the handler and the namespace exist, the version is not the last one, the lock of the requests
-- is free, fewer than 99999 new requests wait and memory is got, replacing a pointer and handing over the old one ends normally. A system
-- that has the same version, pointers and new requests, and in which the write lock is with a writer that
-- is idle and the new pointer was never published, can take steps to one that has those that the code
-- leaves, with the writer idle again.
pub assign_pointer-Steps :
    (w : World) (id : ℕ) (s : CanWrite w id) (pp new destr n i : ℕ) (y : Sys)
    → length s.ns.free_list + 1 < check_depth
    → Agrees s.ns w.cells y
    → y.writers i ≡ idle
    → y.owner ≡ some i
    → y.used new ≡ false
    → (w' : World) × (ns' : Namespace) × (y' : Sys) × ((assign_pointer_ns id pp new
            >> call_ns true id (w.cells pp) destr)
          w
        ≡ ok (tt, w'))
      × (w'.namespaces s.p ≡ some ns')
      × Steps n y y'
      × Agrees ns' w'.cells y'
      × (y'.writers i ≡ idle)
assign_pointer-Steps w id s pp new destr n i y room agrees rests mine fresh =
    let (w', runs, over) = assign_pointer-call w id s pp new (w.cells pp) destr room in
    let self : (i == i) ≡ true = ground arith in
    let old : ℕ = y.cells pp in
    let v : ℕ = y.version + 1 in
    let s1 : Steps n y _ = go stay (bump i pp new rests mine fresh) in
    let s2 = go s1 (assign i pp new (rw self refl)) in
    let s3 = go s2 (take_version i old (rw self refl)) in
    let s4 = go s3 (add i old v (rw self refl)) in
    let ptr_eq : old ≡ over.request.ptr =
      ap (λ (f : ℕ → ℕ). f pp) agrees.same_cells ∙ sym over.request_ptr in
    let version_eq : v ≡ over.request.version =
      omega (arith, agrees.same_version, over.version_eq) in
    (
      w',
      over.ns',
      _,
      runs,
      over.has_ns,
      s4,
      record {
        same_version = omega (arith, agrees.same_version, over.present, over.version_eq);
        same_cells = ap (λ (f : ℕ → ℕ). update f pp new) agrees.same_cells ∙ sym over.cells_eq;
        same_requests =
            rw (over.queued, agrees.same_requests)
              (ap (λ (q : LrcuPtr). q ∷ map shorten s.ns.free_list)
                (ap₂ request ptr_eq version_eq));
      },
      rw self refl,
    )
