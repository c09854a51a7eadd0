-- ===== src/Treiber/Threads/Invariant.antt =====
-- What holds of a shared stack in every state, and what a thread knows at each of its accesses:
-- examples/treiber/stack.rs.
use hazptr.Prelude.{ℕ, ◌≡◌, ◌≢◌, refl, ◌∙◌, Bool, true, false, List, arith, ◌==◌, ==_refl, elem}
use hazptr.Std.Linked.{IsList}
use hazptr.Treiber.Threads.{
  Pc, ready, push_load, push_store, push_exchange, pop_load, pop_next, pop_exchange, pop_read,
  pop_retire, finished, Status, unused, owned, inside, taken, retired, Shared, protects,
}

-- The address is that of a node which has been in the stack and has not been reclaimed.
abbrev pub is_used : Status → Bool
is_used unused = false
is_used (owned i) = false
is_used inside = true
is_used (taken i) = true
is_used retired = true

-- The nodes that belong to one thread.
abbrev pub is_of : ℕ → Status → Bool
is_of j unused = false
is_of j (owned i) = i == j
is_of j inside = false
is_of j (taken i) = i == j
is_of j retired = false

module _ {T : Type 0} where
  pub record Inv (g : Shared T) (contents : List ℕ) : Type 0 where
    pub listed : IsList g.memory.next 0 contents
    pub member : (a : ℕ) → elem a contents ≡ true → g.status a ≡ inside
    pub whole : (a : ℕ) → g.status a ≡ inside → elem a contents ≡ true
    pub origin : g.status 0 ≡ unused

  -- What thread `i` knows before its next access.
  abbrev pub Knows : Shared T → ℕ → Pc T → Type 0
  Knows g i ready = Unit {0}
  Knows g i (push_load node) = (g.status node ≡ owned i) × (node ≢ 0)
  Knows g i (push_store node head) = (g.status node ≡ owned i) × (node ≢ 0)
  Knows g i (push_exchange node head) =
      (g.status node ≡ owned i) × (node ≢ 0) × (g.memory.next node ≡ head)
  Knows g i pop_load = Unit {0}
  Knows g i (pop_next head) = (is_used (g.status head) ≡ true) × (head ≢ 0)
  Knows g i (pop_exchange head next) =
      (is_used (g.status head) ≡ true) × (head ≢ 0) × (g.memory.next head ≡ next)
  Knows g i (pop_read unlinked) = (g.status unlinked ≡ taken i) × (unlinked ≢ 0)
  Knows g i (pop_retire unlinked res) = (g.status unlinked ≡ taken i) × (unlinked ≢ 0)
  Knows g i (finished a) = Unit {0}

  -- The nodes that are left alone, with what they hold.
  abbrev pub Same : Shared T → Shared T → ℕ → Type 0
  Same g g' a = (g'.memory.next a ≡ g.memory.next a) × (g'.memory.elems a ≡ g.memory.elems a)

  -- What is left to thread `j`: its own nodes, and the node that its guard protects.
  pub record Leaves (j : ℕ) (pc : Pc T) (g g' : Shared T) : Type 0 where
    pub own :
        (a : ℕ) → is_of j (g.status a) ≡ true → a ≢ 0 → (g'.status a ≡ g.status a) × Same g g' a
    pub guarded :
        (a : ℕ)
        → protects pc a ≡ true
        → is_used (g.status a) ≡ true
        → a ≢ 0
        → (is_used (g'.status a) ≡ true) × Same g g' a

  pub same-Leaves : (j : ℕ) (pc : Pc T) (g : Shared T) → Leaves j pc g g
  same-Leaves j pc g = record {
    own = λ a o nz. (refl, (refl, refl));
    guarded = λ a p u nz. (u, (refl, refl));
  }

  module _ (j : ℕ) (g g' : Shared T) where
    -- What a thread knows stays true while another acts.
    pub Knows-Leaves : (pc : Pc T) → Leaves j pc g g' → Knows g j pc → Knows g' j pc
    Knows-Leaves ready w k = tt
    Knows-Leaves (push_load node) w (o, nz) = ((w.own node (ground (arith, o)) nz).0 ∙ o, nz)
    Knows-Leaves (push_store node head) w (o, nz) = ((w.own node (ground (arith, o)) nz).0 ∙ o, nz)
    Knows-Leaves (push_exchange node head) w (o, nz, e) =
        let l = w.own node (ground (arith, o)) nz in (l.0 ∙ o, nz, l.1.0 ∙ e)
    Knows-Leaves pop_load w k = tt
    Knows-Leaves (pop_next head) w (u, nz) = ((w.guarded head (==_refl head) u nz).0, nz)
    Knows-Leaves (pop_exchange head next) w (u, nz, e) =
        let l = w.guarded head (==_refl head) u nz in (l.0, nz, l.1.0 ∙ e)
    Knows-Leaves (pop_read unlinked) w (o, nz) = ((w.own unlinked (ground (arith, o)) nz).0 ∙ o, nz)
    Knows-Leaves (pop_retire unlinked res) w (o, nz) =
        ((w.own unlinked (ground (arith, o)) nz).0 ∙ o, nz)
    Knows-Leaves (finished a) w k = tt
