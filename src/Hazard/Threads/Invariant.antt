-- ===== src/Hazard/Threads/Invariant.antt =====
-- What holds of the list of hazards while threads acquire them, and what a thread knows: src/hazard/list.rs.
use hazptr.Prelude.{ℕ, ◌≡◌, ◌≢◌, ◌⊎◌, inl, inr, ◌∙◌, true, List, elem}
use hazptr.Hazard.{free}
use hazptr.Hazard.Threads.{
  Pc, load_next, load_protected, swap_protected, append, idle, unused, made, linked, Shared,
}
use hazptr.Std.Linked.{IsList}

abbrev pub IsLinked : Shared → ℕ → Type 0
IsLinked g a = g.status a ≡ linked

pub record Inv (g : Shared) : Type 0 where
  pub chain : List ℕ
  pub listed : IsList g.nodes.next 0 chain
  pub member : (a : ℕ) → elem a chain ≡ true → IsLinked g a
  pub whole : (a : ℕ) → IsLinked g a → elem a chain ≡ true
  pub origin : g.status 0 ≡ unused
  pub busy : (i h : ℕ) → g.has i h ≡ true → IsLinked g h × (g.nodes.protected h ≢ free)
  pub apart : (i j h : ℕ) → g.has i h ≡ true → g.has j h ≡ true → i ≡ j

abbrev pub IsLocation : Shared → ℕ → Type 0
IsLocation g p = (p ≡ 0) ⊎ IsLinked g p

-- What thread `i` knows before its next access.
abbrev pub Knows : Shared → ℕ → ℕ → Pc → Type 0
Knows g i ptr (load_next prev) = (ptr ≢ free) × IsLocation g prev
Knows g i ptr (load_protected node) = (ptr ≢ free) × IsLinked g node
Knows g i ptr (swap_protected node) = (ptr ≢ free) × IsLinked g node
Knows g i ptr (append tail node) =
    (ptr ≢ free)
    × IsLocation g tail
    × (g.status node ≡ made i)
    × (g.nodes.protected node ≡ ptr)
    × (g.nodes.next node ≡ 0)
    × (node ≢ 0)
Knows g i ptr idle = Unit {0}

-- What an access of thread `i` leaves to the others.
pub record Grows (i : ℕ) (g g' : Shared) : Type 0 where
  pub stays : (a : ℕ) → IsLinked g a → IsLinked g' a
  pub theirs :
      (x j : ℕ)
      → g.status x ≡ made j
      → j ≢ i
      → (g'.status x ≡ made j)
        × (g'.nodes.protected x ≡ g.nodes.protected x)
        × (g'.nodes.next x ≡ g.nodes.next x)

module _ (i j : ℕ) (g g' : Shared) (ne : j ≢ i) (w : Grows i g g') where
  IsLocation-Grows : (p : ℕ) → IsLocation g p → IsLocation g' p
  IsLocation-Grows p (inl z) = inl z
  IsLocation-Grows p (inr l) = inr (w.stays p l)

  pub Knows-Grows : (ptr : ℕ) (pc : Pc) → Knows g j ptr pc → Knows g' j ptr pc
  Knows-Grows ptr (load_next prev) (nf, l) = (nf, IsLocation-Grows prev l)
  Knows-Grows ptr (load_protected node) (nf, l) = (nf, w.stays node l)
  Knows-Grows ptr (swap_protected node) (nf, l) = (nf, w.stays node l)
  Knows-Grows ptr (append tail node) (nf, l, m, p, z, nz) =
      let t = w.theirs node j m ne in (nf, IsLocation-Grows tail l, t.0, t.1 ∙ p, t.2 ∙ z, nz)
  Knows-Grows ptr idle k = tt

-- The hazards that other threads have keep their words.
abbrev pub KeepsWords : ℕ → Shared → Shared → Type 0
KeepsWords i g g' =
    (j h : ℕ)
    → j ≢ i
    → g.has j h ≡ true
    → (g'.has j h ≡ true) × (g'.nodes.protected h ≡ g.nodes.protected h)

pub record Goes (i ptr : ℕ) (g : Shared) (r : Shared × Pc) : Type 0 where
  pub inv : Inv r.0
  pub knows : Knows r.0 i ptr r.1
  pub grows : Grows i g r.0
  pub words : KeepsWords i g r.0
