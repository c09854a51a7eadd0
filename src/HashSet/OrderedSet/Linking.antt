-- ===== src/HashSet/OrderedSet/Linking.antt =====
-- Linking a node keeps the invariant of the ordered set: examples/hash_set/ordered.rs, `insert_node`.
use hazptr.Prelude.{
  update, ℕ, ◌≡◌, ◌≢◌, ◌⊎◌, inl, inr, refl, sym, ap, ◌∙◌, true, false, ◌∷◌, arith, ◌==◌, ◌||◌, elem,
  Bool-cases,
}
use hazptr.HashSet.OrderedSet.{Order, Link, link, write}
use hazptr.HashSet.OrderedSet.Chain.{IsChain-after, after, elem-after}
use hazptr.HashSet.OrderedSet.Invariant.{
  Shared, published, Inv, IsNode, Less, Before, Beyond, Owns, next, Grows,
}
use hazptr.HashSet.OrderedSet.Writes.{kept_location}

module _ {T : Type 0} (o : Order T) (i : ℕ) (g : Shared T) (inv : Inv o g) where
  -- The state after `compare_exchange(next, node, ..)` at `p`.
  abbrev pub grown : ℕ → ℕ → Shared T
  grown x p = record { memory = write g.memory p (link x); status = update g.status x published }

  module _ (x p n : ℕ) (value : T) (mine : Owns o g i x value) (before : Before o g p value)
      (beyond : Beyond o g n value) (at_x : next g x ≡ link n) (at_p : next g p ≡ link n) where
    loc : (p ≡ 0) ⊎ IsNode g p
    loc = elim before [ inl z ↦ inl z | inr (m, l) ↦ inr m ]

    pub in_chain : elem p (0 ∷ inv.chain) ≡ true
    in_chain = kept_location o i g inv p loc (ap (λ (l : Link). l.deleted) at_p)

    x_out : elem x (0 ∷ inv.chain) ≡ false
    x_out = ground (arith, mine.0, mine.1, inv.member x)

    x_ne_p : x ≢ p
    x_ne_p e = ground (arith, e, loc, mine.0, mine.1)

    after_x : (a : ℕ) → elem a (after p x 0 inv.chain) ≡ (a == x || elem a inv.chain)
    after_x a = elem-after (next g) p x 0 a inv.chain in_chain

    new_node : (a : ℕ) → IsNode (grown x p) a → (a ≡ x) ⊎ IsNode g a
    new_node a m = elim (Bool-cases (x == a)) [
      | inl same ↦ inl (ground (arith, same))
      | inr other ↦ inr (ground (arith, m, other))
    ]

    old_node : (a : ℕ) → IsNode g a → IsNode (grown x p) a
    old_node a m = ground (arith, m)

    pub grown-Inv : Inv o (grown x p)
    grown-Inv = record {
      chain = after p x 0 inv.chain;
      linked =
          IsChain-after (next g) p x 0 inv.chain in_chain x_out mine.1
            (ap (λ (l : Link). l.ptr) (at_x ∙ sym at_p)) inv.linked;
      member = λ a h. ground (arith, h, after_x a, inv.member a);
      reach = reach;
      origin = ground (arith, inv.origin, mine.1);
      head_kept = ground (arith, inv.head_kept);
      closed = closed;
      ordered = ordered;
      gone = gone;
      once = inv.once;
    }
      where
        reach :
            (a : ℕ)
            → IsNode (grown x p) a
            → (next (grown x p) a).deleted ≡ false
            → elem a (after p x 0 inv.chain) ≡ true
        reach a m live = elim (new_node a m) [
          | inl e ↦ ground (arith, after_x a, e)
          | inr old ↦ ground (arith, after_x a, inv.reach a old, live, at_p)
        ]

        closed :
            (a : ℕ)
            → (a ≡ 0) ⊎ IsNode (grown x p) a
            → (next (grown x p) a).ptr ≢ 0
            → IsNode (grown x p) (next (grown x p) a).ptr
        closed a from nz = elim (Bool-cases (p == a)) [
          | inl same ↦ rw same (ground arith)
          | inr other ↦ rw other (elsewhere a from (λ z. nz (rw other z)))
        ]
          where
            elsewhere :
                (a : ℕ)
                → (a ≡ 0) ⊎ IsNode (grown x p) a
                → (next g a).ptr ≢ 0
                → IsNode (grown x p) (next g a).ptr
            elsewhere a (inl z) nz = old_node (next g a).ptr (inv.closed a (inl z) nz)
            elsewhere a (inr m) nz = elim (new_node a m) [
              | inl e ↦ old_node (next g a).ptr (ground (arith, beyond, at_x, e, nz))
              | inr old ↦ old_node (next g a).ptr (inv.closed a (inr old) nz)
            ]

        ordered :
            (a : ℕ)
            → IsNode (grown x p) a
            → (next (grown x p) a).ptr ≢ 0
            → Less o (g.memory.elems a) (g.memory.elems (next (grown x p) a).ptr)
        ordered a m nz = elim (Bool-cases (p == a)) [
          | inl same ↦ rw same (below_x a m (ground (arith, same)) before)
          | inr other ↦ rw other (elim (new_node a m) [
            | inl e ↦ rw e (x_below_n (λ z. nz (rw other (rw e z))) beyond)
            | inr old ↦ inv.ordered a old (λ z. nz (rw other z))
          ])
        ]
          where
            below_x :
                (a : ℕ)
                → IsNode (grown x p) a
                → p ≡ a
                → Before o g p value
                → Less o (g.memory.elems a) (g.memory.elems x)
            below_x a m e (inl z) = absurd (ground (arith, m, e, z, inv.origin, mine.1))
            below_x a m e (inr (k, l)) = rw (sym e, mine.2) l

            x_below_n :
                (next g x).ptr ≢ 0
                → Beyond o g n value
                → Less o (g.memory.elems x) (g.memory.elems (next g x).ptr)
            x_below_n nz (inl z) = absurd (nz (rw at_x z))
            x_below_n nz (inr (k, l)) = rw (at_x, mine.2) l

        gone :
            (a : ℕ)
            → elem a g.memory.retired ≡ true
            → IsNode (grown x p) a × (elem a (after p x 0 inv.chain) ≡ false)
        gone a h = (old_node a (inv.gone a h).0, ground (arith, after_x a, inv.gone a h, mine.0))

    pub grown-Grows : Grows o i g (grown x p)
    grown-Grows = record {
      nodes = old_node;
      elems = λ a m. refl;
      marks = λ a m d. ground (arith, d, at_p);
      frozen = λ a m d. ground (arith, d);
      theirs =
          λ y j s ne. (ground (arith, s, mine.0, ne), refl, ground (arith, s, loc, inv.origin));
    }
