-- ===== src/Rewrite/HazardList/Threads/Drop.antt =====
-- The end of the rewrite's list of hazards: hazptr_rewrite/src/hazard/list.rs, `Drop for HazardList`, after the last call.
use hazptr.Prelude.{ℕ, ◌≡◌, ◌↔◌, true, Option, some, List, length, elem}
use hazptr.Std.Linked.{IsDistinct, IsList-IsDistinct, walk, walk-IsList}
use hazptr.Rewrite.HazardList.Threads.{HazardNodes, System, linked, Reached}
use hazptr.Rewrite.HazardList.Threads.Apart.{Reached-Good}

-- The nodes in the order in which they are dropped.
unfoldable pub drop : (fuel : ℕ) → HazardNodes → Option (List ℕ)
unfolding walk
drop fuel m = walk fuel m.next (m.next 0)

-- Dropping the list ends after a step for each node. Exactly the nodes that threads have linked into the
-- list are dropped, each once.
pub drop-all :
    (s : System)
    → Reached s
    → (l : List ℕ) × (drop (length l) s.shared.nodes ≡ some l)
      × IsDistinct l
      × ((a : ℕ) → (elem a l ≡ true) ↔ (s.shared.status a ≡ linked))
unfolding drop
drop-all s r =
    let inv = (Reached-Good s r).inv in
    (
      inv.chain,
      walk-IsList s.shared.nodes.next 0 inv.chain inv.listed,
      IsList-IsDistinct s.shared.nodes.next 0 inv.chain inv.listed,
      λ a. (inv.member a, inv.whole a),
    )
