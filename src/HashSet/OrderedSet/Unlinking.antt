-- ===== src/HashSet/OrderedSet/Unlinking.antt =====
-- Unlinking a node keeps the invariant of the ordered set: examples/hash_set/ordered.rs.
use hazptr.Prelude.{
  update, ℕ, ◌≡◌, ◌≢◌, ◌⊎◌, inl, inr, refl, sym, ap, subst, ◌∙◌, true, false, ◌∷◌, arith, ◌==◌,
  elem, Bool-cases,
}
use hazptr.HashSet.OrderedSet.{Order, Link, link, marked}
use hazptr.HashSet.OrderedSet.Chain.{IsChain, IsChain-without, without, elem-without}
use hazptr.HashSet.OrderedSet.Invariant.{Shared, Inv, IsNode, Less, next, Grows}
use hazptr.HashSet.OrderedSet.Sorted.{node_ne_zero}
use hazptr.HashSet.OrderedSet.Writes.{unlinked, kept_location}

module _ {T : Type 0} (o : Order T) (i : ℕ) (g : Shared T) (inv : Inv o g) where
  module _ (p c n : ℕ) (loc : (p ≡ 0) ⊎ IsNode g p) (at_p : next g p ≡ link c) (node : IsNode g c)
      (at_c : next g c ≡ marked n) where
    c_ne_zero : c ≢ 0
    c_ne_zero = node_ne_zero o g inv c node

    p_ne_c : p ≢ c
    p_ne_c e = cc (at_p, at_c, ap (next g) e)

    p_next : (next g p).ptr ≡ c
    p_next = ap (λ (l : Link). l.ptr) at_p

    c_next : (next g c).ptr ≡ n
    c_next = ap (λ (l : Link). l.ptr) at_c

    cut : IsChain (update (next g) p (link n)) 0 (without c inv.chain) × (elem c inv.chain ≡ true)
    cut =
        subst
          (λ k.
            IsChain (update (next g) p (link k)) 0 (without c inv.chain)
            × (elem c inv.chain ≡ true))
          c_next
          (IsChain-without (next g) p c 0 inv.chain
            (kept_location o i g inv p loc (ap (λ (l : Link). l.deleted) at_p)) p_next c_ne_zero
            inv.linked)

    out : (a : ℕ) → elem a (without c inv.chain) ≡ true → (elem a inv.chain ≡ true) × (a ≢ c)
    out a h = ground (arith, h, elem-without (next g) c a 0 inv.chain inv.linked)

    n_node : n ≢ 0 → IsNode g n
    n_node nz = subst (IsNode g) c_next (inv.closed c (inr node) (λ z. nz (sym c_next ∙ z)))

    live_at_p : (next g p).deleted ≡ false
    live_at_p = ap (λ (l : Link). l.deleted) at_p

    stays :
        (a : ℕ)
        → IsNode g a
        → (next (unlinked o i g inv p c n) a).deleted ≡ false
        → (elem a inv.chain ≡ true) × (a ≢ c)
    stays a m live = elim (Bool-cases (p == a)) [
      | inl same ↦
          let e : p ≡ a = ground (arith, same) in
          (inv.reach a m (subst (λ b. (next g b).deleted ≡ false) e live_at_p), λ z. p_ne_c (e ∙ z))
      | inr other ↦
          let old : (next g a).deleted ≡ false = ground (arith, live, other) in
          (inv.reach a m old, λ z. ground (arith, at_c, old, z))
    ]

    p_to_n : IsNode g p → n ≢ 0 → Less o (g.memory.elems p) (g.memory.elems n)
    p_to_n m nz =
        o.cmp_trans (g.memory.elems p) (g.memory.elems c) (g.memory.elems n)
          (subst (λ b. Less o (g.memory.elems p) (g.memory.elems b)) p_next
            (inv.ordered p m (λ z. c_ne_zero (sym p_next ∙ z))))
          (subst (λ b. Less o (g.memory.elems c) (g.memory.elems b)) c_next
            (inv.ordered c node (λ z. nz (sym c_next ∙ z))))

    -- Unlinking a marked node keeps the invariant; the node is retired once, when no location of the
    -- list leads to it any more.
    pub unlinked-Inv : Inv o (unlinked o i g inv p c n)
    unlinked-Inv = record {
      chain = without c inv.chain;
      linked = cut.0;
      member = λ a h. inv.member a (out a h).0;
      reach = λ a m live.
          ground (arith, elem-without (next g) c a 0 inv.chain inv.linked, stays a m live);
      origin = inv.origin;
      head_kept = ground (arith, inv.head_kept);
      closed = closed;
      ordered = ordered;
      gone = gone;
      once = (ground (arith, cut.1, inv.gone c), inv.once);
    }
      where
        closed :
            (a : ℕ)
            → (a ≡ 0) ⊎ IsNode g a
            → (next (unlinked o i g inv p c n) a).ptr ≢ 0
            → IsNode g (next (unlinked o i g inv p c n) a).ptr
        closed a from nz = elim (Bool-cases (p == a)) [
          | inl same ↦ rw same (n_node (λ z. nz (rw same z)))
          | inr other ↦ rw other (inv.closed a from (λ z. nz (rw other z)))
        ]

        ordered :
            (a : ℕ)
            → IsNode g a
            → (next (unlinked o i g inv p c n) a).ptr ≢ 0
            → Less o (g.memory.elems a) (g.memory.elems (next (unlinked o i g inv p c n) a).ptr)
        ordered a m nz = elim (Bool-cases (p == a)) [
          | inl same ↦
              let e : p ≡ a = ground (arith, same) in
              rw same (
                subst (λ b. Less o (g.memory.elems b) (g.memory.elems n)) e
                  (p_to_n (subst (IsNode g) (sym e) m) (λ z. nz (rw same z))))
          | inr other ↦ rw other (inv.ordered a m (λ z. nz (rw other z)))
        ]

        gone :
            (a : ℕ)
            → elem a (c ∷ g.memory.retired) ≡ true
            → IsNode g a × (elem a (without c inv.chain) ≡ false)
        gone a h = elim (Bool-cases (a == c)) [
          | inl same ↦
              let e : a ≡ c = ground (arith, same) in
              (
                subst (IsNode g) (sym e) node,
                ground (arith, elem-without (next g) c a 0 inv.chain inv.linked, same),
              )
          | inr other ↦
              let old : IsNode g a × (elem a inv.chain ≡ false) =
                inv.gone a (ground (arith, h, other)) in
              (old.0, ground (arith, elem-without (next g) c a 0 inv.chain inv.linked, old.1))
        ]

    pub unlinked-Grows : Grows o i g (unlinked o i g inv p c n)
    unlinked-Grows = record {
      nodes = λ a m. m;
      elems = λ a m. refl;
      marks = λ a m d. ground (arith, d, live_at_p);
      frozen = λ a m d. ground (arith, d);
      theirs = λ x j s ne. (s, refl, ground (arith, s, loc, inv.origin));
    }
