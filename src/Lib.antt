-- ===== src/Lib.antt =====
-- Light-RCU, a user-space library for read-copy-update: readers enter read sections without locks;
-- writers replace objects and hand the old ones over with a version; a worker thread destroys them
-- when no reader can still hold them. A namespace has a version, which writers raise; a thread in a
-- read section has a nesting counter and the version at which it entered.
--
-- The parts, and the files that model them (paths from the repository's root):
-- - Range (src/range.c, src/range.h): `lrcu_rangetree_*`, an array of ranges of versions with a sort,
--   a merge, a squeeze and a binary search. `RangeTree` is the structure, its array a function from
--   index to slot, which keeps what earlier uses left behind the ranges. Range/Spec is the
--   independent view: the set of versions that a list of ranges covers. Range/Slices, Range/Order,
--   Range/Overlap, Range/Merge, Range/Gaps, Range/Squeeze, Range/Search and Range/Add hold the proofs.
--   Range/Library has the allocation, and the search that calls the C library's `bsearch`.
-- - Qsort, Bsearch: what the C library's `qsort` and `bsearch`, parameters of the model, are relied on
--   for.
-- - Spinlock (src/spinlock.c, src/spinlock.h): the ticket lock of two 16-bit counters, as seen by one
--   thread; `spin_lock` of a lock that is not free ends in `out_of_fuel`, since no other thread runs.
--   Spinlock/Word has the lemmas. Spinlock/Contenders has threads that contend for the lock, a step
--   for each access to its word; Spinlock/Contenders/Queue is the abstract view, a queue of threads,
--   Spinlock/Contenders/Moves and Spinlock/Contenders/Simulation relate the two, and
--   Spinlock/Contenders/Exclusion is about all states that are reached.
-- - LinkedList (include/lrcu/list.h): the list on a heap of elements, where each pointer is an address
--   and each read of a freed element is `undefined`. LinkedList/Chain says which list stands on a
--   heap. LinkedList/Check, LinkedList/Insert, LinkedList/Unlink and LinkedList/Splice are about one
--   operation each, LinkedList/Walk about a step of `lrcu_list_for_each`, LinkedList/Sweep about a
--   loop that takes elements off while it walks, and LinkedList/Find about the search for a pointer,
--   which Rcu/Admin uses on lists of values. LinkedList/Atomic has `lrcu_list_insert_atomic` and
--   `lrcu_list_reset_atomic`, as under `LRCU_LIST_ATOMIC`, by threads that are interleaved at each
--   access to the head; LinkedList/Atomic/Invariant, LinkedList/Atomic/Moves and
--   LinkedList/Atomic/Simulation relate them to a stack.
-- - OldList (src/list.h): an older copy of that list, which no compiled file includes, with its loops in
--   OldList/Loops and `lrcu_list_unlink_next` in OldList/Unlink.
-- - Rcu/State (src/lrcu_internal.h, include/lrcu/lrcu.h): the structures, the store of objects, and
--   commands over it. A failed `LRCU_ASSERT` is `assert_failed`; a null or dangling access, a signed
--   overflow or an access outside an array is `undefined`.
-- - Rcu/Reader, Rcu/Writer (src/lrcu.c): `lrcu_read_lock_ns` to `lrcu_call_head_ns`. Rcu/Api
--   (include/lrcu/lrcu.h) has the macros for the namespace 0.
-- - Rcu/Sync (src/lrcu.c): `__lrcu_get_synchronized`, which visits the threads of a namespace and
--   gathers the versions that they may hold, and `lrcu_synchronize_ns`. Rcu/Sync/Covers, Rcu/Sync/Visits,
--   Rcu/Sync/Hung and Rcu/Sync/Gathers are about what is gathered, Rcu/Sync/Grace about what a search
--   in it says of the threads, Rcu/Sync/Ends about the wait among readers that come and go,
--   Rcu/Sync/Idle and Rcu/Sync/Wait about a namespace without readers. Rcu/Sync/Timer has the timer macros
--   of include/lrcu/user.h and include/lrcu/linux.h in the detection of hung threads.
-- - Rcu/Worker (src/lrcu.c): one round of `lrcu_worker` for a namespace: it takes over the new
--   requests, gathers the ranges, and serves each request whose version is in none of them.
--   Rcu/Worker/Grace and Rcu/Worker/Reclaim are about the grace period, Rcu/Worker/Stale about a round
--   without readers. A destructor call is recorded with its function, argument and version.
-- - Rcu/Reader/Nesting, Rcu/Writer/Handover: what read sections leave of a thread, and what a writer
--   that hands an object over leaves of the store.
-- - Rcu/Admin (src/lrcu.c): `lrcu_ns_init`, `lrcu_ns_deinit_safe`, `__lrcu_thread_init`,
--   `lrcu_thread_set_ns`, `lrcu_thread_del_ns`, `lrcu_thread_deinit`. An allocation's result is an
--   argument. Rcu/Admin/Creation, Rcu/Admin/Removal and Rcu/Admin/Joining hold the proofs.
-- - Rcu/Cycle (src/lrcu.c): a round of the loop of `lrcu_worker` over the namespaces, on the store,
--   with the removal of a namespace and the new version. Rcu/Cycle/Live is about a namespace in use,
--   Rcu/Cycle/Pending about one that waits for its removal.
-- - Rcu/Barrier (src/lrcu.c): `lrcu_barrier_ns` and `lrcu_ns_deinit`. Rcu/Barrier/Wait relates the wait
--   to the worker's passes, Rcu/Barrier/Removal is about the removal.
-- - Rcu/Life (src/lrcu.c): the start and the end of the library and of its worker: `__lrcu_init`,
--   `lrcu_init`, `lrcu_deinit`, `lrcu_worker`, with the states through which they wait for each other,
--   in Rcu/Life/Start and Rcu/Life/Stop.
-- - Rcu/Interleave (src/lrcu.c): readers, writers and the worker's round as a step relation, a step for
--   each access to what they share. A reader's nesting is as in Rcu/Reader, a blocked version as in
--   Rcu/Sync/Covers. Rcu/Interleave/Readers, Rcu/Interleave/Pending, Rcu/Interleave/Invariant,
--   Rcu/Interleave/Steps, Rcu/Interleave/Scan and Rcu/Interleave/Preserve build the invariant,
--   Rcu/Interleave/Safety and Rcu/Interleave/Once draw from it. Rcu/Interleave/Code and
--   Rcu/Interleave/Replace relate the functions of Rcu/Reader and Rcu/Writer to its steps,
--   Rcu/Interleave/Serve and Rcu/Interleave/Round the worker's round of Rcu/Worker.
--   Rcu/Interleave/Race makes `ns->version++` of the worker two accesses, which Rcu/Interleave/Atomic
--   takes to be undisturbed, and Rcu/Interleave/Hang adds the detection of hung threads.
-- - Examples (examples/simple-api-1/simple-api-1.c, examples/linux-module/linux-module.c): the shared
--   object, and the store of objects beside that of the library. Examples/Simple and Examples/Module have
--   the functions and the threads of the two programs, Examples/Simple/Rounds a round of each thread.
--   Examples/Shared interleaves the threads of a program, with the steps of Rcu/Interleave for what the
--   library does: Examples/Shared/Effects is about the functions, Examples/Shared/Invariant,
--   Examples/Shared/Turns, Examples/Shared/Construct and Examples/Shared/Own build the invariant, and
--   Examples/Shared/Safety draws from it. Examples/Host has the functions that create and join the
--   threads, Examples/Host/Failures what they leave where that fails.
-- - Tests: concrete inputs, an insertion sort in place of `qsort`, a linear search in place of `bsearch`.
-- - Prelude: the result type `Run` of code that may fail, commands over a state, and lemmas on tests,
--   lists and permutations.
--
-- Bounds and fuel: `u64` and `u16` arithmetic wraps where the code's can. The search and the merge
-- loops get one round more than the array has ranges. The addition has three rounds, the last of
-- which fails its assertion. `lrcu_synchronize_ns` waits for others, and takes the number of its
-- rounds as an argument; what the others do between rounds is a function. The array of ranges has
-- `LRCU_THREADS_MAX` slots; the theorems on rounds assume that twice the number of threads and the
-- number of hung threads fit.
--
-- The list's loops take `fuel` rounds; the theorems ask for more than there are elements, and for less
-- than the 100000 elements at which `lrcu_list_check_loop` gives up. The lists of the store in
-- src/lrcu.c are plain lists; `check_list` of Rcu/State is that assertion on their length, made once for
-- the longest list that an operation checks. Only the two lists of threads in `__lrcu_get_synchronized`
-- go without it, whose threads are far fewer where the ranges fit. The waits of `lrcu_barrier_ns` and
-- `__lrcu_init` and the loop of `lrcu_worker` take the number of rounds as an argument. The lock's
-- theorems hold for up to 65536 threads, as many as there are tickets.
--
-- In the step relations each access is one step, in the order of the program: the memory is
-- sequentially consistent. In Rcu/Interleave `ns->version++` is one step, which it is not where two
-- threads run it at once, as its child Race shows; a version is a number without a bound, where `u64`
-- wraps; no thread is taken to hang, as while no section lasts longer than `sync_timeout`, and its child
-- Hang has the other case. What is drawn from it, in Examples/Shared too, holds under these conditions.
-- Instead of the ranges a request is called only at a version that no thread blocks, and may be kept at
-- any version, as the ranges may have grown; any number of writers take the write lock, which is one step,
-- and a pointer is published once. Examples/Shared interleaves the threads of simple-api-1.c. In Examples/Shared the address of a new object was not used before, and the
-- number of objects is bounded where a theorem says so, since `c` has 64 bits.
--
-- Not modelled: memory that is weaker than that, and the barriers; the rest of src/lrcu.c interleaved,
-- whose commands run with no other thread in between, but for the waits; what
-- `lrcu_list_splice_atomic` does behind its reset, as `lrcu_list_splice` does, and the atomic functions
-- of src/list.h, which are those of include/lrcu/list.h; the print functions of src/range.c; the
-- platform layer but for its timers; `timer_thread` and `main` of linux-module.c and the entry points of
-- the kernel modules; the tests.
pub mod Prelude
pub mod Qsort
pub mod Bsearch
pub mod Range
pub mod Spinlock
pub mod LinkedList
pub mod OldList
pub mod Rcu
pub mod Examples
pub mod Tests
