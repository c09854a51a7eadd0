-- ===== src/HashSet/OrderedSet/Effects.antt =====
-- What the writes of the ordered set do to the set that it stands for: examples/hash_set/ordered.rs.
use hazptr.Prelude.{
  ℕ, ◌≡◌, ◌≢◌, ◌⊎◌, ◌↔◌, inl, inr, sym, ap, subst, ◌∙◌, false, arith, ◌==◌, Ordering, Bool-cases,
}
use hazptr.HashSet.OrderedSet.{Order, Link, link, marked}
use hazptr.HashSet.OrderedSet.Invariant.{Shared, Inv, IsNode, Before, Beyond, Owns, next}
use hazptr.HashSet.OrderedSet.Sorted.{absent, unique}
use hazptr.HashSet.OrderedSet.Writes.{wrote, unlinked}
use hazptr.HashSet.OrderedSet.Linking.{grown, in_chain}

module _ {T : Type 0} (o : Order T) where
  -- The set has an element equal to the value: a node that is linked and not marked.
  abbrev pub Present : Shared T → T → Type 0
  Present g value =
      (a : ℕ) × IsNode g a
      × ((next g a).deleted ≡ false)
      × (o.cmp (g.memory.elems a) value ≡ Ordering.eq)

  -- The two states stand for the same set.
  abbrev pub SameSet : Shared T → Shared T → Type 0
  SameSet g g' = (w : T) → Present g' w ↔ Present g w

  pub record Adds (value : T) (g g' : Shared T) : Type 0 where
    pub fresh : ¬ Present g value
    pub now : (w : T) → Present g' w ↔ (Present g w ⊎ (o.cmp value w ≡ Ordering.eq))

  pub record Removes (value : T) (g g' : Shared T) : Type 0 where
    pub there : Present g value
    pub now : (w : T) → Present g' w ↔ (Present g w × (o.cmp value w ≢ Ordering.eq))

  pub same-SameSet : (g : Shared T) → SameSet g g
  same-SameSet g w = (λ p. p, λ p. p)

  module _ (i : ℕ) (g : Shared T) (inv : Inv o g) where
    pub unlinked-SameSet : (p c n : ℕ) → next g p ≡ link c → SameSet g (unlinked o i g inv p c n)
    unlinked-SameSet p c n at_p w = (
      λ (a, m, live, e). (a, m, ground (arith, live, at_p), e),
      λ (a, m, live, e). (a, m, ground (arith, live), e),
    )

    pub store-SameSet :
        (x n : ℕ) (value : T) → Owns o g i x value → SameSet g (wrote o i g inv x (link n))
    store-SameSet x n value mine w = (
      λ (a, m, live, e). (a, m, ground (arith, live, m, mine.0), e),
      λ (a, m, live, e). (a, m, ground (arith, live), e),
    )

    -- Marking the node of a value takes exactly that value out of the set.
    pub mark-Removes :
        (c n : ℕ) (value : T)
        → IsNode g c
        → next g c ≡ link n
        → o.cmp (g.memory.elems c) value ≡ Ordering.eq
        → Removes value g (wrote o i g inv c (marked n))
    mark-Removes c n value node at_c q = record {
      there = (c, node, live_at_c, q);
      now = λ w. (
        λ (a, m, live, e). (
          (a, m, ground (arith, live), e),
          λ v. ground (arith, live, same_node a w m (ground (arith, live)) e v),
        ),
        λ ((a, m, live, e), ne). (a, m, ground (arith, live, other a w e ne), e),
      );
    }
      where
        live_at_c : (next g c).deleted ≡ false
        live_at_c = ap (λ (l : Link). l.deleted) at_c

        same_node :
            (a : ℕ) (w : T)
            → IsNode g a
            → (next g a).deleted ≡ false
            → o.cmp (g.memory.elems a) w ≡ Ordering.eq
            → o.cmp value w ≡ Ordering.eq
            → a ≡ c
        same_node a w m live e v =
            unique o g inv c a (inv.reach c node live_at_c) (inv.reach a m live) (
              o.cmp_congr (g.memory.elems a) w (g.memory.elems c) e
              ∙ o.cmp_eq (g.memory.elems c) w (o.cmp_congr (g.memory.elems c) value w q ∙ v))

        other :
            (a : ℕ) (w : T)
            → o.cmp (g.memory.elems a) w ≡ Ordering.eq
            → o.cmp value w ≢ Ordering.eq
            → a ≢ c
        other a w e ne z = ne (
            sym (o.cmp_congr (g.memory.elems c) value w q)
            ∙ subst (λ b. o.cmp (g.memory.elems b) w ≡ Ordering.eq) z e)

    -- Linking a node adds exactly its value, which the set did not have.
    pub grown-Adds :
        (x p n : ℕ) (value : T)
        → Owns o g i x value
        → Before o g p value
        → Beyond o g n value
        → next g x ≡ link n
        → next g p ≡ link n
        → Adds value g (grown o i g inv x p)
    grown-Adds x p n value mine before beyond at_x at_p = record {
      fresh = λ (a, m, live, e).
          absent o g inv p a value (in_chain o i g inv x p n value mine before beyond at_x at_p)
            before (subst (λ k. Beyond o g k value) (sym (ap (λ (l : Link). l.ptr) at_p)) beyond)
            (inv.reach a m live) e;
      now = λ w. (λ (a, m, live, e). forth a w m live e, λ s. back w s);
    }
      where
        forth :
            (a : ℕ) (w : T)
            → IsNode (grown o i g inv x p) a
            → (next (grown o i g inv x p) a).deleted ≡ false
            → o.cmp (g.memory.elems a) w ≡ Ordering.eq
            → Present g w ⊎ (o.cmp value w ≡ Ordering.eq)
        forth a w m live e = elim (Bool-cases (x == a)) [
          | inl same ↦
              let z : a ≡ x = ground (arith, same) in
              inr (rw (sym mine.2) (subst (λ b. o.cmp (g.memory.elems b) w ≡ Ordering.eq) z e))
          | inr other ↦ inl (a, ground (arith, m, other), ground (arith, live, at_p), e)
        ]

        back :
            (w : T) → Present g w ⊎ (o.cmp value w ≡ Ordering.eq) → Present (grown o i g inv x p) w
        back w (inl (a, m, live, e)) = (a, ground (arith, m), ground (arith, live), e)
        back w (inr v) = (x, ground arith, ground (arith, at_x), rw mine.2 v)
