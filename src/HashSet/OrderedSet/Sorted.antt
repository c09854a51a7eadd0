-- ===== src/HashSet/OrderedSet/Sorted.antt =====
-- The elements of the list are in order: examples/hash_set/ordered.rs.
use hazptr.Prelude.{
  ℕ, ◌≡◌, ◌≢◌, ◌⊎◌, inl, inr, sym, ap, subst, ◌∙◌, true, List, [], ◌∷◌, arith, ◌==◌, Ordering, elem,
  Bool-cases,
}
use hazptr.HashSet.OrderedSet.{Order}
use hazptr.HashSet.OrderedSet.Chain.{IsChain}
use hazptr.HashSet.OrderedSet.Invariant.{Shared, Inv, IsNode, Less, Before, Beyond, next}

module _ {T : Type 0} (o : Order T) (g : Shared T) (inv : Inv o g) where
  abbrev value_of : ℕ → T
  value_of a = g.memory.elems a

  pub node_ne_zero : (a : ℕ) → IsNode g a → a ≢ 0
  node_ne_zero a n z = cc (subst (IsNode g) z n, inv.origin)

  next-Less : (p a : ℕ) → IsNode g p → (next g p).ptr ≡ a → a ≢ 0 → Less o (value_of p) (value_of a)
  next-Less p a n e ne =
      subst (λ b. Less o (value_of p) (value_of b)) e (inv.ordered p n (λ z. ne (sym e ∙ z)))

  above :
      (p b : ℕ) (l : List ℕ)
      → IsChain (next g) p l
      → IsNode g p
      → ((a : ℕ) → elem a l ≡ true → IsNode g a)
      → elem b l ≡ true
      → Less o (value_of p) (value_of b)
  above p b [] c n all h = absurd (ground (arith, h))
  above p b (a ∷ l) c n all h =
      let first : Less o (value_of p) (value_of a) = next-Less p a n c.0 c.1 in
      elim (Bool-cases (b == a)) [
        | inl same ↦
            let e : b ≡ a = ground (arith, same) in
            subst (λ d. Less o (value_of p) (value_of d)) (sym e) first
        | inr other ↦ o.cmp_trans (value_of p) (value_of a) (value_of b) first (
            above a b l c.3 (all a (ground arith)) (λ d m. all d (ground (arith, m)))
              (ground (arith, h, other)))
      ]

  -- Where a node of the list lies, seen from a location of it.
  abbrev Side : ℕ → ℕ → Type 0
  Side q b =
      (b ≡ q)
      ⊎ ((IsNode g q × Less o (value_of b) (value_of q))
          ⊎ (((next g q).ptr ≢ 0)
              × ((b ≡ (next g q).ptr) ⊎ Less o (value_of (next g q).ptr) (value_of b))))

  side :
      (q p b : ℕ) (l : List ℕ)
      → IsChain (next g) p l
      → ((a : ℕ) → elem a l ≡ true → IsNode g a)
      → elem q (p ∷ l) ≡ true
      → elem b l ≡ true
      → Side q b
  side q p b [] c all there h = absurd (ground (arith, h))
  side q p b (a ∷ l) c all there h = elim (Bool-cases (q == p)) [
    | inl here ↦
        let s : q ≡ p = ground (arith, here) in
        let n : (next g q).ptr ≡ a = ap (λ d. (next g d).ptr) s ∙ c.0 in
        elim (Bool-cases (b == a)) [
          | inl same ↦ inr (inr (λ z. c.1 (sym n ∙ z), inl (ground (arith, same, n))))
          | inr other ↦ inr (
              inr (
                λ z. c.1 (sym n ∙ z),
                inr (
                    subst (λ d. Less o (value_of d) (value_of b)) (sym n)
                      (above a b l c.3 (all a (ground arith)) (λ d m. all d (ground (arith, m)))
                        (ground (arith, h, other)))),
              ))
        ]
    | inr later ↦
        let there' : elem q (a ∷ l) ≡ true = ground (arith, there, later) in
        elim (Bool-cases (b == a)) [
          | inl same ↦
              let e : b ≡ a = ground (arith, same) in
              elim (Bool-cases (q == a)) [
                | inl at ↦ inl (ground (arith, e, at))
                | inr past ↦ inr (
                    inl (
                      all q there',
                      subst (λ d. Less o (value_of d) (value_of q)) (sym e)
                          (above a q l c.3 (all a (ground arith)) (λ d m. all d (ground (arith, m)))
                            (ground (arith, there', past))),
                    ))
              ]
          | inr other ↦
              side q a b l c.3 (λ d m. all d (ground (arith, m))) there' (ground (arith, h, other))
        ]
  ]

  lt_ne_eq : (a b : T) → Less o a b → o.cmp a b ≢ Ordering.eq
  lt_ne_eq a b l e = cc

  gt_ne_eq : (a b : T) → Less o a b → o.cmp b a ≢ Ordering.eq
  gt_ne_eq a b l e = cc (o.cmp_lt a b l)

  -- A value between a location and the next node is not in the list.
  pub absent :
      (q b : ℕ) (value : T)
      → elem q (0 ∷ inv.chain) ≡ true
      → Before o g q value
      → Beyond o g (next g q).ptr value
      → elem b inv.chain ≡ true
      → o.cmp (value_of b) value ≢ Ordering.eq
  absent q b value there before beyond h =
      go (side q 0 b inv.chain inv.linked inv.member there h) before beyond
    where
      go :
          Side q b
          → Before o g q value
          → Beyond o g (next g q).ptr value
          → o.cmp (value_of b) value ≢ Ordering.eq
      go (inl e) (inl z) beyond = absurd (node_ne_zero b (inv.member b h) (e ∙ z))
      go (inl e) (inr (n, l)) beyond =
          lt_ne_eq (value_of b) value (subst (λ d. Less o (value_of d) value) (sym e) l)
      go (inr (inl (m, l))) (inl z) beyond = absurd (node_ne_zero q m z)
      go (inr (inl (m, l))) (inr (n, k)) beyond =
          lt_ne_eq (value_of b) value (o.cmp_trans (value_of b) (value_of q) value l k)
      go (inr (inr (nz, r))) before (inl z) = absurd (nz z)
      go (inr (inr (nz, inl e))) before (inr (n, k)) =
          gt_ne_eq value (value_of b) (subst (λ d. Less o value (value_of d)) (sym e) k)
      go (inr (inr (nz, inr l))) before (inr (n, k)) =
          gt_ne_eq value (value_of b) (o.cmp_trans value (value_of (next g q).ptr) (value_of b) k l)

  -- The list has no value twice.
  pub unique :
      (a b : ℕ)
      → elem a inv.chain ≡ true
      → elem b inv.chain ≡ true
      → o.cmp (value_of b) (value_of a) ≡ Ordering.eq
      → b ≡ a
  unique a b ha hb e = go (side a 0 b inv.chain inv.linked inv.member (ground (arith, ha)) hb)
    where
      go : Side a b → b ≡ a
      go (inl s) = s
      go (inr (inl (m, l))) = absurd (lt_ne_eq (value_of b) (value_of a) l e)
      go (inr (inr (nz, inl s))) = absurd (
          gt_ne_eq (value_of a) (value_of b)
            (next-Less a b (inv.member a ha) (sym s) (λ z. nz (sym s ∙ z))) e)
      go (inr (inr (nz, inr l))) = absurd (
          gt_ne_eq (value_of a) (value_of b)
            (o.cmp_trans (value_of a) (value_of (next g a).ptr) (value_of b)
              (inv.ordered a (inv.member a ha) nz) l)
            e)
