-- ===== src/HashSet/OrderedSet/Retiring.antt =====
-- A node is retired once, and when no walk along the list can get to it; what `drop` deallocates:
-- examples/hash_set/ordered.rs.
use hazptr.Prelude.{
  ℕ, ◌≡◌, ◌≢◌, ◌↔◌, ◌≤◌, inl, inr, refl, sym, subst, ◌∙◌, true, false, some, List, [], ◌∷◌, arith,
  ◌==◌, elem, Bool-cases, length, zero, suc,
}
use hazptr.HashSet.OrderedSet.{Order, Link, drop, head}
use hazptr.HashSet.OrderedSet.Chain.{IsChain, IsChain-distinct}
use hazptr.HashSet.OrderedSet.Invariant.{IsDistinct, Less, next}
use hazptr.HashSet.OrderedSet.Threads.{System, Reached}
use hazptr.HashSet.OrderedSet.Reached.{Reached-Good}

-- The nodes that a walk along the pointers from `head` gets to.
pub data IsOn (next : ℕ → Link) : ℕ → Type 0 where
  first : (next 0).ptr ≢ 0 → IsOn next (next 0).ptr
  further : (a : ℕ) → IsOn next a → (next a).ptr ≢ 0 → IsOn next (next a).ptr

module _ (f : ℕ → Link) where
  elem-next :
      (p a : ℕ) (l : List ℕ)
      → IsChain f p l
      → elem a (p ∷ l) ≡ true
      → (f a).ptr ≢ 0
      → elem (f a).ptr l ≡ true
  elem-next p a [] z h nz = absurd (nz (ground (arith, h, z)))
  elem-next p a (b ∷ l) (e, nz', out, rest) h nz = elim (Bool-cases (a == p)) [
    | inl same ↦ ground (arith, same, e)
    | inr other ↦ ground (arith, elem-next b a l rest (ground (arith, h, other)) nz)
  ]

  IsOn-elem : (l : List ℕ) → IsChain f 0 l → (a : ℕ) → IsOn f a → elem a l ≡ true
  IsOn-elem l c _ (first nz) = elem-next 0 0 l c (ground arith) nz
  IsOn-elem l c _ (further a on nz) = elem-next 0 a l c (ground (arith, IsOn-elem l c a on)) nz

  drop_node :
      (a : ℕ) (l : List ℕ) (steps : ℕ)
      → a ≢ 0
      → drop steps f (f a).ptr ≡ some l
      → drop (suc steps) f a ≡ some (a ∷ l)
  unfolding drop
  drop_node a l steps nz h = let z : (a == 0) ≡ false = ground (arith, nz) in rw (z, h) refl

  drop-chain :
      (l : List ℕ) (p steps : ℕ)
      → IsChain f p l
      → length l ≤ steps
      → drop steps f (f p).ptr ≡ some l
  unfolding drop
  drop-chain [] p zero e lt = rw e refl
  drop-chain [] p (suc steps) e lt = rw e refl
  drop-chain (a ∷ l) p zero c lt = absurd (omega (arith, lt))
  drop-chain (a ∷ l) p (suc steps) (e, nz, out, rest) lt =
      subst (λ b. drop (suc steps) f b ≡ some (a ∷ l)) (sym e)
        (drop_node a l steps nz (drop-chain l a steps rest (omega (arith, lt))))

  chain_IsOn :
      (l : List ℕ) (p : ℕ)
      → IsChain f p l
      → ((f p).ptr ≢ 0 → IsOn f (f p).ptr)
      → (a : ℕ) → elem a l ≡ true
      → IsOn f a
  chain_IsOn [] p c on a h = absurd (ground (arith, h))
  chain_IsOn (b ∷ l) p (e, nz, out, rest) on a h =
      let here : IsOn f b = subst (IsOn f) e (on (λ z. nz (sym e ∙ z))) in
      elim (Bool-cases (a == b)) [
        | inl same ↦ subst (IsOn f) (ground (arith, same)) here
        | inr other ↦ chain_IsOn l b rest (λ z. further b here z) a (ground (arith, h, other))
      ]

  chain-IsDistinct : (l : List ℕ) (p : ℕ) → IsChain f p l → IsDistinct l
  chain-IsDistinct [] p c = tt
  chain-IsDistinct (a ∷ l) p (e, nz, out, rest) =
      (IsChain-distinct f a l rest, chain-IsDistinct l a rest)

-- After any order of accesses, no node is in the retired ones twice, and a walk along the list from its
-- head gets to no retired node and finds the values in strict order.
pub Reached-Retired :
    {T : Type 0} (o : Order T) (s : System T)
    → Reached o s
    → IsDistinct s.shared.memory.retired
      × ((a : ℕ) → elem a s.shared.memory.retired ≡ true → ¬ IsOn (next s.shared) a)
      × ((a : ℕ)
          → IsOn (next s.shared) a
          → (next s.shared a).ptr ≢ 0
          → Less o (s.shared.memory.elems a) (s.shared.memory.elems (next s.shared a).ptr))
Reached-Retired o s r =
    let inv = (Reached-Good o s r).inv in
    (
      inv.once,
      λ a h on.
          ground (arith, (inv.gone a h).1, IsOn-elem (next s.shared) inv.chain inv.linked a on),
      λ a on nz.
          inv.ordered a (inv.member a (IsOn-elem (next s.shared) inv.chain inv.linked a on)) nz,
    )

-- `l` is what `drop` gives, with enough steps: the nodes on the list, each once, and none of them retired.
abbrev pub Drops : {T : Type 0} → System T → List ℕ → Type 0
Drops s l =
    ((steps : ℕ) → length l ≤ steps → drop steps (next s.shared) (next s.shared head).ptr ≡ some l)
    × IsDistinct l
    × ((a : ℕ) → (elem a l ≡ true) ↔ IsOn (next s.shared) a)
    × ((a : ℕ) → elem a l ≡ true → elem a s.shared.memory.retired ≡ false)

-- Dropping the ordered set ends: with a step for each node it deallocates the nodes that a walk from the
-- head gets to, each once, and none that has been retired.
pub drop-IsOn : {T : Type 0} (o : Order T) (s : System T) → Reached o s → (l : List ℕ) × Drops s l
drop-IsOn o s r =
    let inv = (Reached-Good o s r).inv in
    (
      inv.chain,
      (
        λ steps lt. drop-chain (next s.shared) inv.chain 0 steps inv.linked lt,
        chain-IsDistinct (next s.shared) inv.chain 0 inv.linked,
        λ a. (
          chain_IsOn (next s.shared) inv.chain 0 inv.linked first a,
          IsOn-elem (next s.shared) inv.chain inv.linked a,
        ),
        λ a h. ground (arith, h, inv.gone a),
      ),
    )
