-- ===== src/Lib.antt =====
-- hazptr: memory reclamation by hazard pointers.
--
-- A thread that reads a record through a shared atomic first publishes the record's address in a hazard
-- and loads the atomic again. A thread that has unlinked a record retires it: the record waits in the
-- thread's bag until a scan of all hazards finds that none protects it.
--
-- The parts, with the files that model them:
-- - Config: the configuration and its builder (src/config.rs).
-- - Hazard: the word of a hazard (src/hazard/mod.rs); Hazard/HazardList: acquiring one from the list
--   (src/hazard/list.rs). The list is a list of words, and a hazard is its position. Hazard/Threads has the
--   same list in memory, with any number of threads that acquire hazards from it: each step is one shared
--   access of one of them.
-- - Retired: bags of retired records, and the stack of the bags that ended threads have abandoned
--   (src/retired.rs). A vector is its elements and its capacity (Std/Vec). Retired/Threads has the stack of
--   abandoned bags in memory, with any number of threads that push and take.
-- - Global: the state that threads share, and the collection of protected addresses (src/global.rs).
-- - Local: the state of a thread (src/local.rs): counting, flushing, scanning, the cache of hazards, the
--   start and the end of a thread. Local/Access is the LocalAccess trait with its laws, and its
--   implementations (src/local.rs, src/default.rs).
-- - Guard: protect, protect_if_equal, release, clone and drop (src/guard.rs).
-- - Protocol: guards and threads side by side, one shared access at a time in any order.
-- - Rewrite: the rewrite of the crate (hazptr_rewrite/src). Rewrite/Config, Rewrite/Hazard,
--   Rewrite/HazardList (hazard/list.rs and the scan of global.rs), Rewrite/Queue, Rewrite/Retire (the two
--   retire strategies), Rewrite/Local (local/inner.rs, with the handles of local/mod.rs in
--   Rewrite/Local/Handles) and Rewrite/Guard model the files of these names. They run one operation at a
--   time, with no other thread in between, but that `try_reclaim` has an argument for what other threads
--   do to the global state between its scan of the hazards and its reclamation. Rewrite/Retire has the
--   global queue as the list of its records; Rewrite/Retire/Relink has its nodes in memory, which the
--   reclamation links anew.
--   Rewrite/Queue/Threads has the queue in memory, with any number of threads that push and take, and
--   Rewrite/HazardList/Threads the list of hazards, with threads that acquire hazards while a scan runs.
-- - Treiber: the stack of examples/treiber/stack.rs. Treiber/Threads has it in memory, with any number of
--   threads that push and pop; Spec is the stack as its callers see it.
-- - HashSet: the hash set of examples/hash_set/main.rs; HashSet/OrderedSet is a bucket of it
--   (examples/hash_set/ordered.rs). Any number of threads share an ordered set, and each step is one
--   shared access of one of them: `step` is the access that a thread makes next in `find`, `insert_node`
--   or `remove_node`. Threads has the calls in any order, Invariant and the modules after it what each
--   access keeps, Calls to Linear what the answer of a call says of the states while it ran.
-- - Prelude and Std: shared helpers, linked lists in memory, and what the code uses of the language's
--   standard library: vectors, sorting, and the binary search over a slice.
--
-- State is passed explicitly; a panic is the outcome `panics`. Reclaiming a record is an entry of a
-- log. Config to Guard, but for their modules Threads, run one operation at a time, with no other
-- thread in between; other threads show in `protect` and `protect_if_equal`, whose loads are
-- arguments. A record is a parameter `R` with its address; the marked pointers of the reclaim crate
-- are a parameter with the laws that the code relies on. The operation counter is a u32 and wraps at
-- 2 ^ 32; addresses are natural numbers. The loop of `protect` recurs on the list of the values that
-- its loads give, and the one of the binary search on the size of its window. The compare-and-swap
-- loops of the stack recur on the results of the attempts; dropping the stack, an ordered set or a
-- list of hazards, merging abandoned bags, and the reclamation over the nodes of the global queue, is
-- given a step for each node; there, to run out of steps counts as a panic.
--
-- Of Treiber's stack, a node that has been retired may be reclaimed at any time when no thread's
-- guard protects it, which is what Protocol shows of the library, and its address may then be
-- allocated again. In the ordered set no address is used twice, since the guards of `find` protect
-- what a thread may still read; a protected load is the access at its last, validated load, and the
-- value that a call looks for is of the set's own type instead of a borrowed form of it. The order
-- of the values is a parameter with the laws of `Ord`, and the hash of a value a parameter that
-- equal values share, as `Hash` asks.
--
-- Not modelled: memory orderings weaker than sequential consistency, fences, the layout of nodes,
-- the type aliases and one-line calls of src/lib.rs and of the rewrite's default.rs and lib.rs, the
-- release of the guards at the end of a call of the hash set, and the test program of
-- examples/hash_set/main.rs.
pub mod Prelude
pub mod Std
pub mod Config
pub mod Hazard
pub mod Retired
pub mod Global
pub mod Local
pub mod Guard
pub mod Protocol
pub mod Rewrite
pub mod Treiber
pub mod HashSet
mod Examples
