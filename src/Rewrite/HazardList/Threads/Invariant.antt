-- ===== src/Rewrite/HazardList/Threads/Invariant.antt =====
-- What holds of the rewrite's list of hazards while threads acquire them, and what a thread knows:
-- hazptr_rewrite/src/hazard/list.rs.
use hazptr.Prelude.{
  ℕ, suc, ◌<◌, ◌≡◌, ◌≢◌, ◌⊎◌, inl, inr, ◌∙◌, true, false, List, elem, Option, none, some,
}
use hazptr.Rewrite.Hazard.{not_yet_used}
use hazptr.Rewrite.HazardList.{elements}
use hazptr.Rewrite.HazardList.Threads.{
  Pc, load_next, load_word, exchange_word, append, idle, unused, made, linked, Shared, is_available,
}
use hazptr.Std.Linked.{IsList}

abbrev pub IsLinked : Shared → ℕ → Type 0
IsLinked g a = g.status a ≡ linked

-- The hazard has been acquired at some time.
abbrev pub IsUsed : Shared → (node idx : ℕ) → Type 0
IsUsed g a k = g.nodes.words a k ≢ not_yet_used

-- All hazards of the node before the index have been acquired at some time.
abbrev pub UsedBefore : Shared → (node idx : ℕ) → Type 0
UsedBefore g a n = (k : ℕ) → k < n → IsUsed g a k

pub record Inv (g : Shared) : Type 0 where
  pub chain : List ℕ
  pub listed : IsList g.nodes.next 0 chain
  pub member : (a : ℕ) → elem a chain ≡ true → IsLinked g a
  pub whole : (a : ℕ) → IsLinked g a → elem a chain ≡ true
  pub origin : g.status 0 ≡ unused
  pub busy :
      (i a k : ℕ)
      → g.has i a k ≡ true
      → IsLinked g a × (is_available (g.nodes.words a k) ≡ false) × (k < elements)
  pub apart : (i j a k : ℕ) → g.has i a k ≡ true → g.has j a k ≡ true → i ≡ j
  pub full : (a : ℕ) → IsLinked g a → g.nodes.next a ≢ 0 → UsedBefore g a elements
  pub ordered : (a k : ℕ) → IsLinked g a → IsUsed g a (suc k) → IsUsed g a k

-- The head, or a node without a hazard that has never been used.
abbrev pub IsPassed : Shared → ℕ → Type 0
IsPassed g p = (p ≡ 0) ⊎ (IsLinked g p × UsedBefore g p elements)

-- The new node of a thread is not in the list yet.
abbrev pub Owns : Shared → ℕ → ℕ → Option ℕ → Type 0
Owns g i protected none = Unit {0}
Owns g i protected (some a) =
    (g.status a ≡ made i)
    × (g.nodes.words a 0 ≡ protected)
    × ((k : ℕ) → g.nodes.words a (suc k) ≡ not_yet_used)
    × (g.nodes.next a ≡ 0)
    × (a ≢ 0)

-- What thread `i` knows before its next access.
abbrev pub Knows : Shared → ℕ → ℕ → Pc → Type 0
Knows g i protected (load_next prev) = (is_available protected ≡ false) × IsPassed g prev
Knows g i protected (load_word own node idx) =
    (is_available protected ≡ false)
    × IsLinked g node
    × (idx < elements)
    × UsedBefore g node idx
    × Owns g i protected own
Knows g i protected (exchange_word own node idx current) =
    (is_available protected ≡ false)
    × IsLinked g node
    × (idx < elements)
    × UsedBefore g node idx
    × Owns g i protected own
    × (is_available current ≡ true)
    × (current ≢ not_yet_used → IsUsed g node idx)
Knows g i protected (append tail own) =
    (is_available protected ≡ false) × IsPassed g tail × Owns g i protected (some own)
Knows g i protected idle = Unit {0}

-- What an access of thread `i` leaves to the others.
pub record Grows (i : ℕ) (g g' : Shared) : Type 0 where
  pub stays : (a : ℕ) → IsLinked g a → IsLinked g' a
  pub used : (a k : ℕ) → IsLinked g a → IsUsed g a k → IsUsed g' a k
  pub theirs :
      (x j : ℕ)
      → g.status x ≡ made j
      → j ≢ i
      → (g'.status x ≡ made j)
        × ((k : ℕ) → g'.nodes.words x k ≡ g.nodes.words x k)
        × (g'.nodes.next x ≡ g.nodes.next x)

module _ (i j : ℕ) (g g' : Shared) (ne : j ≢ i) (w : Grows i g g') where
  UsedBefore-Grows : (a n : ℕ) → IsLinked g a → UsedBefore g a n → UsedBefore g' a n
  UsedBefore-Grows a n l u k lt = w.used a k l (u k lt)

  IsPassed-Grows : (p : ℕ) → IsPassed g p → IsPassed g' p
  IsPassed-Grows p (inl z) = inl z
  IsPassed-Grows p (inr (l, u)) = inr (w.stays p l, UsedBefore-Grows p elements l u)

  Owns-Grows : (protected : ℕ) (own : Option ℕ) → Owns g j protected own → Owns g' j protected own
  Owns-Grows protected none o = tt
  Owns-Grows protected (some a) (m, p, r, z, nz) =
      let t = w.theirs a j m ne in (t.0, t.1 0 ∙ p, λ k. t.1 (suc k) ∙ r k, t.2 ∙ z, nz)

  pub Knows-Grows : (protected : ℕ) (pc : Pc) → Knows g j protected pc → Knows g' j protected pc
  Knows-Grows protected (load_next prev) (nf, l) = (nf, IsPassed-Grows prev l)
  Knows-Grows protected (load_word own node idx) (nf, l, lt, u, o) =
      (nf, w.stays node l, lt, UsedBefore-Grows node idx l u, Owns-Grows protected own o)
  Knows-Grows protected (exchange_word own node idx current) (nf, l, lt, u, o, av, h) = (
    nf,
    w.stays node l,
    lt,
    UsedBefore-Grows node idx l u,
    Owns-Grows protected own o,
    av,
    λ c. w.used node idx l (h c),
  )
  Knows-Grows protected (append tail own) (nf, l, o) =
      (nf, IsPassed-Grows tail l, Owns-Grows protected (some own) o)
  Knows-Grows protected idle k = tt

-- The hazards that other threads have keep their words.
abbrev pub KeepsWords : ℕ → Shared → Shared → Type 0
KeepsWords i g g' =
    (j a k : ℕ)
    → j ≢ i
    → g.has j a k ≡ true
    → (g'.has j a k ≡ true) × (g'.nodes.words a k ≡ g.nodes.words a k)

pub record Goes (i protected : ℕ) (g : Shared) (r : Shared × Pc) : Type 0 where
  pub inv : Inv r.0
  pub knows : Knows r.0 i protected r.1
  pub grows : Grows i g r.0
  pub words : KeepsWords i g r.0
