-- ===== src/Rewrite/Retire.antt =====
-- hazptr_rewrite/src/retire: where retired records wait, under the local and the global strategy.
-- `address` is the address of a record; the log of a reclamation is the list of the records.
pub mod Merge
pub mod Relink
use hazptr.Prelude.{
  ℕ, ◌+◌, ◌-◌, Bool, not, Option, none, some, List, [], ◌∷◌, ◌++◌, ltb, if◌then◌else◌, compare,
  Ordering, is_empty, keep,
}
use hazptr.Std.Vec.{Vec, with_capacity, len, append, push, retain}
use hazptr.Std.Search.{binary_search_by, is_ok}
use hazptr.Rewrite.Queue
use hazptr.Rewrite.Queue.{RawQueue}

abbrev pub default_initial_capacity : ℕ
default_initial_capacity = 128

-- The queue that a node is in has its `next`.
pub record RetireNode (R : Type 0) : Type 0 where
  pub vec : Vec R

-- `ReclaimOnDrop::compare_with`
abbrev pub compare_with : ℕ → ℕ → Ordering
compare_with address protected = compare protected address

-- The closure of `binary_search_by`, over the scan cache.
unfoldable pub is_retained : {R : Type 0} → (R → ℕ) → List ℕ → R → Bool
is_retained address protected retired =
    is_ok (binary_search_by protected (compare_with (address retired)))

module _ {R : Type 0} where
  -- `impl Default for RetireNode`
  abbrev pub default : RetireNode R
  default = record { vec = with_capacity default_initial_capacity }

  abbrev pub node_is_empty : RetireNode R → Bool
  node_is_empty node = is_empty node.vec.items

  unfoldable pub merge : RetireNode R → Vec R → RetireNode R
  merge node other =
      if ltb node.vec.capacity (other.capacity - len other)
      then record { vec = append other node.vec }
      else record { vec = append node.vec other }

  -- `RetireNode::retire`
  abbrev pub node_retire : RetireNode R → R → RetireNode R
  node_retire node retired = record { vec = push node.vec retired }

  -- `AbandonedQueue::push`
  abbrev pub abandon : RawQueue (RetireNode R) → RetireNode R → RawQueue (RetireNode R)
  abandon queue node = hazptr.Rewrite.Queue.push queue node

  -- The `while` loop of `take_all_and_merge`.
  merge_all : RetireNode R → List (RetireNode R) → RetireNode R
  merge_all boxed [] = boxed
  merge_all boxed (node ∷ nodes) = merge_all (merge boxed node.vec) nodes

  merge_taken : List (RetireNode R) → Option (RetireNode R)
  unfolding merge_all
  merge_taken [] = none
  merge_taken (boxed ∷ nodes) = some (merge_all boxed nodes)

  unfoldable pub take_all_and_merge :
      RawQueue (RetireNode R) → Option (RetireNode R) × RawQueue (RetireNode R)
  unfolding merge_taken
  take_all_and_merge queue =
      let (nodes, rest) = hazptr.Rewrite.Queue.take_all queue in (merge_taken nodes, rest)

  -- `RetiredQueue::retire`
  abbrev pub queue_retire : RawQueue R → R → RawQueue R
  queue_retire queue retired = hazptr.Rewrite.Queue.push queue retired

module _ {R : Type 0} (address : R → ℕ) where
  -- `RetireNode::reclaim_all_unprotected`: the node after, and what is reclaimed.
  unfoldable pub node_reclaim_all_unprotected : RetireNode R → List ℕ → RetireNode R × List R
  unfolding is_retained
  node_reclaim_all_unprotected node protected = (
    record { vec = retain (is_retained address protected) node.vec },
    keep (λ r. not (is_retained address protected r)) node.vec.items,
  )

  -- `RetiredQueue::reclaim_all_unprotected`, as the list of the records in the queue. The loop that
  -- links the nodes in memory anew is in the module Relink.
  unfoldable pub queue_reclaim_all_unprotected : RawQueue R → List ℕ → RawQueue R × List R
  unfolding is_retained
  queue_reclaim_all_unprotected queue protected =
      let (taken, rest) = hazptr.Rewrite.Queue.take_all queue in
      (
        hazptr.Rewrite.Queue.push_many rest (keep (is_retained address protected) taken),
        keep (λ r. not (is_retained address protected r)) taken,
      )

-- `GlobalRetireState` and `LocalRetireState`
pub data GlobalRetireState (R : Type 0) : Type 0 where
  global_strategy : RawQueue R → GlobalRetireState R
  local_strategy : RawQueue (RetireNode R) → GlobalRetireState R

pub data LocalRetireState (R : Type 0) : Type 0 where
  global_strategy : LocalRetireState R
  local_strategy : RetireNode R → LocalRetireState R

abbrev or_default : {R : Type 0} → Option (RetireNode R) → RetireNode R
or_default none = default
or_default (some node) = node

-- `LocalRetireState::from`, with the global state after.
unfoldable pub from : {R : Type 0} → GlobalRetireState R → LocalRetireState R × GlobalRetireState R
unfolding take_all_and_merge
from (GlobalRetireState.global_strategy queue) =
    (LocalRetireState.global_strategy, GlobalRetireState.global_strategy queue)
from (GlobalRetireState.local_strategy abandoned) =
    let (node, rest) = take_all_and_merge abandoned in
    (LocalRetireState.local_strategy (or_default node), GlobalRetireState.local_strategy rest)
