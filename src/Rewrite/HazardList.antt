-- ===== src/Rewrite/HazardList.antt =====
-- hazptr_rewrite/src/hazard/list.rs and hazptr_rewrite/src/global.rs: the list of nodes of hazards,
-- with no other thread running, and the collection of what they protect. A hazard is its position
-- among the hazards of all nodes.
pub mod Acquire
pub mod Collect
pub mod Threads
use hazptr.Prelude.{
  ℕ, zero, suc, ◌+◌, Bool, ◌||◌, Option, none, some, List, [], ◌∷◌, ◌++◌, ◌==◌, if◌then◌else◌,
  length, Outcome, returns, panics,
}
use hazptr.Std.Vec.{Vec, push}
use hazptr.Hazard.{AtomicOrdering, is_seq_cst}
use hazptr.Rewrite.Hazard.{
  HazardPtr, free, thread_reserved, not_yet_used, new, with_protected, ProtectedResult,
  protected_ptr, unprotected, abort, get_protected, ProtectStrategy, reserve_only, protect,
}

abbrev pub elements : ℕ
elements = 31

-- `HazardArrayNode`: the elements of one node; the next pointers are the list's order.
abbrev pub HazardArrayNode : Type 0
HazardArrayNode = List HazardPtr

abbrev pub HazardList : Type 0
HazardList = List HazardArrayNode

abbrev pub replicate : ℕ → HazardArrayNode
replicate zero = []
replicate (suc n) = new ∷ replicate n

-- `HazardArrayNode::new`
abbrev pub new_node : ℕ → HazardArrayNode
new_node protected = with_protected protected ∷ replicate 30

-- `Iter`, run to its end.
abbrev pub iter : HazardList → List HazardPtr
iter [] = []
iter (node ∷ nodes) = node ++ iter nodes

abbrev pub available : HazardPtr → Bool
available h = h.protected == free || h.protected == not_yet_used

-- The index in the node, and the node after.
pub try_insert_in_node : HazardArrayNode → ℕ → Option (ℕ × HazardArrayNode)
try_insert_in_node [] protected = none
try_insert_in_node (h ∷ node) protected =
    let rest = try_insert_in_node node protected in
    if available h
    then some (0, with_protected protected ∷ node)
    else (elim rest [ none ↦ none | some r ↦ some (suc r.0, h ∷ r.1) ])

-- Where the list ends, the compare-and-swap of `insert_back` succeeds at once.
abbrev pub insert_back : ℕ → ℕ × HazardList
insert_back protected = (0, new_node protected ∷ [])

pub get_or_insert_unchecked : HazardList → ℕ → ℕ × HazardList
unfolding try_insert_in_node
get_or_insert_unchecked [] protected = insert_back protected
get_or_insert_unchecked (node ∷ nodes) protected =
    let rest = get_or_insert_unchecked nodes protected in
    elim (try_insert_in_node node protected) [
      | some r ↦ (r.0, r.1 ∷ nodes)
      | none ↦ (length node + rest.0, node ∷ rest.1)
    ]

-- What a strategy stores in the hazard.
abbrev pub requested : ProtectStrategy → ℕ
requested reserve_only = thread_reserved
requested (protect p) = p

-- `Global::get_hazard`
abbrev pub get_hazard : HazardList → ProtectStrategy → ℕ × HazardList
get_hazard hazards reserve_only = get_or_insert_unchecked hazards thread_reserved
get_hazard hazards (protect p) = get_or_insert_unchecked hazards p

pub collect_loop : Vec ℕ → List HazardPtr → Vec ℕ
collect_loop vec [] = vec
collect_loop vec (h ∷ hs) = elim (get_protected h) [
  | protected_ptr p ↦ collect_loop (push vec p) hs
  | abort ↦ vec
  | unprotected ↦ collect_loop vec hs
]

-- `Global::collect_protected_hazards`
unfoldable pub collect_protected_hazards : HazardList → Vec ℕ → AtomicOrdering → Outcome (Vec ℕ)
unfolding collect_loop
collect_protected_hazards hazards vec order =
    if is_seq_cst order
    then returns (collect_loop (record vec { items = [] }) (iter hazards))
    else panics
