-- ===== src/Rewrite/Queue.antt =====
-- hazptr_rewrite/src/queue.rs: a queue whose nodes have the pointer to the next one is the list of
-- the nodes from the head on. No other thread runs between a load and its compare-and-swap.
pub mod Threads
pub mod Segments
pub mod Pushing
pub mod Atomic
use hazptr.Prelude.{Bool, List, [], ◌∷◌, ◌++◌}
use hazptr.Prelude

abbrev pub RawQueue : Type 0 → Type 0
RawQueue N = List N

module _ {N : Type 0} where
  abbrev pub new : RawQueue N
  new = []

  abbrev pub is_empty : RawQueue N → Bool
  is_empty queue = hazptr.Prelude.is_empty queue

  abbrev pub push : RawQueue N → N → RawQueue N
  push queue node = node ∷ queue

  -- The nodes from `first` to `last`.
  abbrev pub push_many : RawQueue N → List N → RawQueue N
  push_many queue nodes = nodes ++ queue

  -- The nodes that were in the queue, and the queue after.
  abbrev pub take_all : RawQueue N → List N × RawQueue N
  take_all queue = (queue, new)
