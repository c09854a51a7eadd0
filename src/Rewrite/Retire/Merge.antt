-- ===== src/Rewrite/Retire/Merge.antt =====
-- Retired records are neither lost nor doubled: hazptr_rewrite/src/retire.
use hazptr.Prelude.{
  ℕ, ◌≡◌, refl, not, Option, none, some, List, [], ◌∷◌, ◌++◌, arith, count_p-append, SameItems,
  keep,
}
use mathlib.Core.List.{append-nil}
use hazptr.Std.Vec.{Vec}
use hazptr.Rewrite.Queue.{RawQueue}
use hazptr.Rewrite.Retire.{
  RetireNode, merge, merge_all, merge_taken, take_all_and_merge, is_retained,
  queue_reclaim_all_unprotected,
}

module _ {R : Type 0} where
  -- The records of all abandoned nodes.
  abbrev pub node_records : List (RetireNode R) → List R
  node_records [] = []
  node_records (node ∷ nodes) = node.vec.items ++ node_records nodes

  abbrev pub taken_records : Option (RetireNode R) → List R
  taken_records none = []
  taken_records (some node) = node.vec.items

  pub merge-SameItems :
      (node : RetireNode R) (other : Vec R)
      → SameItems (merge node other).vec.items (node.vec.items ++ other.items)
  unfolding merge
  merge-SameItems node other p = ground (
    arith,
    count_p-append p node.vec.items other.items,
    count_p-append p other.items node.vec.items,
  )

  merge_all-SameItems :
      (node : RetireNode R) (nodes : List (RetireNode R))
      → SameItems (merge_all node nodes).vec.items (node.vec.items ++ node_records nodes)
  unfolding merge_all
  merge_all-SameItems node [] p = omega (arith, count_p-append p node.vec.items [])
  merge_all-SameItems node (n ∷ nodes) p = omega (
    arith,
    merge_all-SameItems (merge node n.vec) nodes p,
    merge-SameItems node n.vec p,
    count_p-append p (merge node n.vec).vec.items (node_records nodes),
    count_p-append p node.vec.items (node_records (n ∷ nodes)),
    count_p-append p node.vec.items n.vec.items,
    count_p-append p n.vec.items (node_records nodes),
  )

  -- Taking all abandoned nodes yields one node with exactly their records, or none if there is no
  -- node, and leaves the queue empty.
  pub take_all_and_merge-SameItems :
      (queue : RawQueue (RetireNode R))
      → SameItems (taken_records (take_all_and_merge queue).0) (node_records queue)
        × ((take_all_and_merge queue).1 ≡ [])
  unfolding take_all_and_merge merge_taken
  take_all_and_merge-SameItems [] = (λ p. refl, refl)
  take_all_and_merge-SameItems (node ∷ nodes) = (merge_all-SameItems node nodes, refl)

module _ {R : Type 0} (address : R → ℕ) (protected : List ℕ) where
  pub queue_reclaim_all_unprotected-keep :
      (queue : RawQueue R)
      → queue_reclaim_all_unprotected address queue protected ≡ (
        keep (is_retained address protected) queue,
        keep (λ r. not (is_retained address protected r)) queue,
      )
  unfolding queue_reclaim_all_unprotected
  queue_reclaim_all_unprotected-keep queue =
      rw (append-nil (keep (is_retained address protected) queue)) refl
