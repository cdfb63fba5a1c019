-- ===== src/Rcu/Interleave.antt =====
-- src/lrcu.c: readers, writers and the worker of one namespace, interleaved at each access to what they
-- share. A version is a plain number, `ns->version++` one step, no thread hangs, and a writer holds the
-- namespace's write lock while it replaces a pointer, publishes a pointer once, and hands it over when
-- it has replaced it, as the library asks.
pub mod Readers
pub mod Pending
pub mod Invariant
pub mod Steps
pub mod Scan
pub mod Preserve
pub mod Safety
pub mod Once
pub mod Race
pub mod Atomic
pub mod Hang
pub mod Code
pub mod Replace
pub mod Serve
pub mod Round
use light_rcu.Prelude.{
  ℕ, zero, suc, ◌+◌, ◌≤◌, ◌<◌, ◌≡◌, Bool, true, false, ◌||◌, Option, none, some, List, [], ◌∷◌,
  ◌++◌, ◌==◌, update,
}
use light_rcu.Rcu.State.{LocalNs, LrcuPtr}
use light_rcu.Rcu.Reader.{nest, leave}
use light_rcu.Rcu.Sync.Covers.{may_hold}

-- Where a thread stands in `lrcu_read_lock_ns`: before it, behind `lns->counter++`, behind the read of
-- `ns->version`, and behind the write of `lns->version`.
pub data ReaderPc : Type 0 where
  outside entered : ReaderPc
  loaded : ℕ → ReaderPc
  inside : ReaderPc

-- `holds` marks the pointers that the thread has read in its section.
pub record Thread : Type 0 where
  pub lns : LocalNs
  pub pc : ReaderPc
  pub holds : ℕ → Bool

abbrev pub include : ℕ → (ℕ → Bool) → ℕ → Bool
include p set q = (q == p) || set q

-- A step of a reader, which sees the namespace's version and the protected pointers.
pub data Move (version : ℕ) (cells : ℕ → ℕ) (t : Thread) : Thread → Type 0 where
  count : t.pc ≡ outside → Move version cells t (record t { lns = nest t.lns; pc = entered })
  load : t.pc ≡ entered → Move version cells t (record t { pc = loaded version })
  store :
      (v : ℕ)
      → t.pc ≡ loaded v
      → Move version cells t (record t { lns = record t.lns { version = v }; pc = inside })
  deref :
      (c : ℕ)
      → t.pc ≡ inside
      → Move version cells t (record t { holds = include (cells c) t.holds })
  nest_more : t.pc ≡ inside → Move version cells t (record t { lns = nest t.lns })
  nest_less :
      t.pc ≡ inside → 1 < t.lns.counter → Move version cells t (record t { lns = leave t.lns })
  leave_last :
      t.pc ≡ inside
      → t.lns.counter ≡ 1
      → Move version cells t (record t { lns = leave t.lns; pc = outside; holds = λ p. false })

-- Where a writer stands in `__lrcu_assign_pointer_ns` and `lrcu_call_ns`: before them, behind the
-- new version, behind the assignment, and behind the read of the request's version.
pub data WriterPc : Type 0 where
  idle : WriterPc
  bumped : ℕ → ℕ → WriterPc
  written : ℕ → WriterPc
  calling : ℕ → ℕ → WriterPc

-- The assignment has begun, and has not ended.
abbrev pub assigning : WriterPc → Bool
assigning idle = false
assigning (bumped c new) = true
assigning (written old) = false
assigning (calling old v) = false

-- Where the worker stands in its round: before it, behind the splice, between the visits of the
-- threads with the `current_version` that it has read, and between the requests, with those kept.
pub data WorkerPc : Type 0 where
  resting spliced : WorkerPc
  scanning : ℕ → WorkerPc
  serving : ℕ → List LrcuPtr → WorkerPc

-- `version` is below 2^64 in the code, and has no bound here: the system is the code's up to the wrap.
-- `owner` is the writer that has the namespace's write lock. `used` marks the pointers that were ever
-- published, `called` those that were destroyed. The worker copies `lns` of a thread in two reads, in
-- either order.
pub record Sys : Type 0 where
  pub version : ℕ
  pub cells : ℕ → ℕ
  pub used : ℕ → Bool
  pub threads : ℕ → Thread
  pub owner : Option ℕ
  pub writers : ℕ → WriterPc
  pub free_list : List LrcuPtr
  pub worker_list : List LrcuPtr
  pub worker : WorkerPc
  pub seen_version : ℕ → Option ℕ
  pub seen_counter : ℕ → Option ℕ
  pub called : ℕ → Bool

abbrev pub request : ℕ → ℕ → LrcuPtr
request p v = record { ptr = p; deinit = 0; version = v; ns_id = 0 }

-- What the worker has copied of a thread's `lns`.
abbrev pub copied : Option ℕ → Option ℕ → Option LocalNs
copied none c = none
copied (some v) none = none
copied (some v) (some c) = some (record { version = v; counter = c })

-- The copy of each of the first `n` threads is complete.
abbrev pub AllSeen : ℕ → Sys → Type 0
AllSeen n s =
    (i : ℕ) → i < n → (v : ℕ) × (c : ℕ) × (s.seen_version i ≡ some v) × (s.seen_counter i ≡ some c)

module _ (s : Sys) (current : ℕ) where
  -- A version that may be in use in one of the first `n` threads, by what was copied of them.
  abbrev pub blocked : ℕ → ℕ → Bool
  blocked zero v = false
  blocked (suc n) v =
      may_hold current (copied (s.seen_version n) (s.seen_counter n)) v || blocked n v

-- A step of the system with `n` threads, where `ns->version++` is one step, as it is in code whose
-- increment is atomic, and where the worker takes no thread to hang, as while no thread is in a section
-- for longer than `sync_timeout`. Race and Hang leave out one of these two conditions each.
pub data Step (n : ℕ) (s : Sys) : Sys → Type 0 where
  move :
      (i : ℕ) (t : Thread)
      → i < n
      → Move s.version s.cells (s.threads i) t
      → Step n s (record s { threads = update s.threads i t })
  -- `lrcu_write_barrier_ns`, as in `lrcu_write_lock_ns` and in the worker
  barrier : Step n s (record s { version = s.version + 1 })
  lock : (i : ℕ) → s.owner ≡ none → Step n s (record s { owner = some i })
  unlock :
      (i : ℕ)
      → s.owner ≡ some i
      → assigning (s.writers i) ≡ false
      → Step n s (record s { owner = none })
  bump :
      (i c new : ℕ)
      → s.writers i ≡ idle
      → s.owner ≡ some i
      → s.used new ≡ false
      → Step n s (record s { version = s.version + 1; writers = update s.writers i (bumped c new) })
  assign :
      (i c new : ℕ)
      → s.writers i ≡ bumped c new
      → Step n s (record s {
        cells = update s.cells c new;
        used = include new s.used;
        writers = update s.writers i (written (s.cells c));
      })
  take_version :
      (i old : ℕ)
      → s.writers i ≡ written old
      → Step n s (record s { writers = update s.writers i (calling old s.version) })
  add :
      (i old v : ℕ)
      → s.writers i ≡ calling old v
      → Step n s
          (record s { free_list = request old v ∷ s.free_list; writers = update s.writers i idle })
  -- The caller has nothing to hand over, or the request gets no memory.
  pass_over :
      (i old : ℕ)
      → s.writers i ≡ written old
      → Step n s (record s { writers = update s.writers i idle })
  lose :
      (i old v : ℕ)
      → s.writers i ≡ calling old v
      → Step n s (record s { writers = update s.writers i idle })
  splice :
      s.worker ≡ resting
      → Step n s (record s {
        worker_list = s.worker_list ++ s.free_list;
        free_list = [];
        worker = spliced;
      })
  start :
      s.worker ≡ spliced
      → Step n s (record s {
        worker = scanning s.version;
        seen_version = λ i. none;
        seen_counter = λ i. none;
      })
  see_version :
      (i current : ℕ)
      → s.worker ≡ scanning current
      → Step n s
          (record s { seen_version = update s.seen_version i (some (s.threads i).lns.version) })
  see_counter :
      (i current : ℕ)
      → s.worker ≡ scanning current
      → Step n s
          (record s { seen_counter = update s.seen_counter i (some (s.threads i).lns.counter) })
  decide :
      (current : ℕ)
      → s.worker ≡ scanning current
      → AllSeen n s
      → Step n s (record s { worker = serving current [] })
  -- A range may have grown where the array of ranges was full, so a request may stay at any version.
  keep :
      (current : ℕ) (x : LrcuPtr) (xs kept : List LrcuPtr)
      → s.worker ≡ serving current kept
      → s.worker_list ≡ x ∷ xs
      → Step n s (record s { worker_list = xs; worker = serving current (kept ++ x ∷ []) })
  call :
      (current : ℕ) (x : LrcuPtr) (xs kept : List LrcuPtr)
      → s.worker ≡ serving current kept
      → s.worker_list ≡ x ∷ xs
      → blocked s current n x.version ≡ false
      → Step n s (record s { worker_list = xs; called = include x.ptr s.called })
  finish :
      (current : ℕ) (kept : List LrcuPtr)
      → s.worker ≡ serving current kept
      → s.worker_list ≡ []
      → Step n s (record s { worker_list = kept; worker = resting })

-- No thread is in a section, no request is pending, and the pointers are all different.
pub record Start (s : Sys) : Type 0 where
  pub all_out : (i : ℕ) → (s.threads i).pc ≡ outside
  pub counters : (i : ℕ) → (s.threads i).lns.counter ≡ 0
  pub none_held : (i p : ℕ) → (s.threads i).holds p ≡ false
  pub versions : (i : ℕ) → (s.threads i).lns.version ≤ s.version
  pub cells_used : (c : ℕ) → s.used (s.cells c) ≡ true
  pub distinct : (a b : ℕ) → s.cells a ≡ s.cells b → a ≡ b
  pub not_owned : s.owner ≡ none
  pub writers_idle : (i : ℕ) → s.writers i ≡ idle
  pub no_free : s.free_list ≡ []
  pub no_work : s.worker_list ≡ []
  pub worker_rests : s.worker ≡ resting
  pub none_called : (p : ℕ) → s.called p ≡ false

pub data Reach (n : ℕ) : Sys → Type 0 where
  here : {s : Sys} → Start s → Reach n s
  later : {s t : Sys} → Reach n s → Step n s t → Reach n t
