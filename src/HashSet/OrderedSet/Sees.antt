-- ===== src/HashSet/OrderedSet/Sees.antt =====
-- What a thread has seen in the set since its call began: examples/hash_set/ordered.rs, `find`.
use hazptr.Prelude.{ℕ, ◌≡◌, true, false, none, some, Ordering}
use hazptr.HashSet.OrderedSet.{
  Order, Op, insert_node, remove_node, cleanup, get, Answer, success, element, Pc, load_curr,
  load_next, compare_next, protect_next, check_prev, unlink, store_next, link_node, mark,
  unlink_marked, finished,
}
use hazptr.HashSet.OrderedSet.Invariant.{Shared, IsNode, Less, next}
use hazptr.HashSet.OrderedSet.Effects.{Present}

module _ {T : Type 0} (o : Order T) (value : T) where
  -- The set has the node, and its element is equal to the value.
  abbrev pub Has : ℕ → Shared T → Type 0
  Has a g =
      IsNode g a × ((next g a).deleted ≡ false) × (o.cmp (g.memory.elems a) value ≡ Ordering.eq)

  abbrev pub Lacks : Shared T → Type 0
  Lacks g = ¬ Present o g value

  -- `Was Q`: some state since the beginning of the call has had the property `Q`.
  module _ (Was : (Shared T → Type 0) → Type 0) where
    -- A location that is marked and the last one is behind where the value was looked for.
    abbrev pub Tail : Shared T → ℕ → Type 0
    Tail g p = (next g p).deleted ≡ true → (next g p).ptr ≡ 0 → Was Lacks

    abbrev pub Ends : Op → Answer → Type 0
    Ends (insert_node x) (success true) = Unit {0}
    Ends (insert_node x) (success false) = Was (λ g. Present o g value)
    Ends (insert_node x) (element e) = ⊥
    Ends remove_node (success true) = Unit {0}
    Ends remove_node (success false) = Was Lacks
    Ends remove_node (element e) = ⊥
    Ends cleanup (success true) = Unit {0}
    Ends cleanup (success false) = ⊥
    Ends cleanup (element e) = ⊥
    Ends get (success b) = ⊥
    Ends get (element none) = Was Lacks
    Ends get (element (some a)) = Was (Has a)

    abbrev pub Sees : Shared T → Op → Pc → Type 0
    Sees g op (load_curr p) = Tail g p
    Sees g op (load_next p c) = Unit {0}
    Sees g op (compare_next p c raw) = Unit {0}
    Sees g op (protect_next p c) = Unit {0}
    Sees g op (check_prev p c l) =
        l.deleted ≡ false
        → (Less o (g.memory.elems c) value → Tail g c)
          × (o.cmp (g.memory.elems c) value ≡ Ordering.eq → Was (Has c))
    Sees g op (unlink p c n) = Unit {0}
    Sees g op (store_next x p n) = Unit {0}
    Sees g op (link_node x p n) = Unit {0}
    Sees g op (mark p c n) = Unit {0}
    Sees g op (unlink_marked p c n) = op ≡ remove_node
    Sees g op (finished a) = Ends op a

  module _ (Was Was' : (Shared T → Type 0) → Type 0)
      (lift : (Q : Shared T → Type 0) → Was Q → Was' Q) where
    pub Ends-lift : (op : Op) (a : Answer) → Ends Was op a → Ends Was' op a
    Ends-lift (insert_node x) (success true) w = tt
    Ends-lift (insert_node x) (success false) w = lift (λ g. Present o g value) w
    Ends-lift (insert_node x) (element e) w = w
    Ends-lift remove_node (success true) w = tt
    Ends-lift remove_node (success false) w = lift Lacks w
    Ends-lift remove_node (element e) w = w
    Ends-lift cleanup (success true) w = tt
    Ends-lift cleanup (success false) w = w
    Ends-lift cleanup (element e) w = w
    Ends-lift get (success b) w = w
    Ends-lift get (element none) w = lift Lacks w
    Ends-lift get (element (some a)) w = lift (Has a) w

    -- What has been seen has been seen later on.
    pub Sees-lift : (g : Shared T) (op : Op) (pc : Pc) → Sees Was g op pc → Sees Was' g op pc
    Sees-lift g op (load_curr p) t = λ d e. lift Lacks (t d e)
    Sees-lift g op (load_next p c) t = tt
    Sees-lift g op (compare_next p c raw) t = tt
    Sees-lift g op (protect_next p c) t = tt
    Sees-lift g op (check_prev p c l) t =
        λ live. (λ less. λ d e. lift Lacks ((t live).0 less d e), λ q. lift (Has c) ((t live).1 q))
    Sees-lift g op (unlink p c n) t = tt
    Sees-lift g op (store_next x p n) t = tt
    Sees-lift g op (link_node x p n) t = tt
    Sees-lift g op (mark p c n) t = tt
    Sees-lift g op (unlink_marked p c n) t = t
    Sees-lift g op (finished a) t = Ends-lift op a t
