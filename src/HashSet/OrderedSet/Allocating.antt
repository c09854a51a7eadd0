-- ===== src/HashSet/OrderedSet/Allocating.antt =====
-- A new node is for the thread that allocates it: examples/hash_set/ordered.rs, `insert_node`.
use hazptr.Prelude.{
  ℕ, ◌≡◌, ◌≢◌, ◌⊎◌, inl, inr, sym, ap, subst, ◌∙◌, false, ◌∷◌, arith, ◌==◌, Ordering, elem,
  Bool-cases,
}
use hazptr.HashSet.OrderedSet.{Order, Link, link}
use hazptr.HashSet.OrderedSet.Chain.{IsChain-frame}
use hazptr.HashSet.OrderedSet.Invariant.{Shared, unused, Inv, IsNode, Less, next, Grows}
use hazptr.HashSet.OrderedSet.Effects.{SameSet}
use hazptr.HashSet.OrderedSet.Threads.{allocate}

module _ {T : Type 0} (o : Order T) (i x : ℕ) (value : T) (g : Shared T) (inv : Inv o g)
    (fresh : g.status x ≡ unused) (nz : x ≢ 0) where
  x_out : elem x (0 ∷ inv.chain) ≡ false
  x_out = ground (arith, fresh, nz, inv.member x)

  same_at : (a : ℕ) → (a ≡ 0) ⊎ IsNode g a → next (allocate i x value g) a ≡ next g a
  same_at a from = ground (arith, from, fresh, nz)

  same_elem : (a : ℕ) → IsNode g a → (allocate i x value g).memory.elems a ≡ g.memory.elems a
  same_elem a m = ground (arith, m, fresh)

  old_node : (a : ℕ) → IsNode (allocate i x value g) a → IsNode g a
  old_node a m = elim (Bool-cases (x == a)) [
    | inl same ↦ absurd (ground (arith, m, same))
    | inr other ↦ ground (arith, m, other)
  ]

  new_node : (a : ℕ) → IsNode g a → IsNode (allocate i x value g) a
  new_node a m = ground (arith, m, fresh)

  pub allocate-Inv : Inv o (allocate i x value g)
  allocate-Inv = record {
    chain = inv.chain;
    linked = IsChain-frame (next g) x (link 0) 0 inv.chain x_out inv.linked;
    member = λ a h. new_node a (inv.member a h);
    reach = λ a m live.
        inv.reach a (old_node a m)
          (subst (λ (l : Link). l.deleted ≡ false) (same_at a (inr (old_node a m))) live);
    origin = ground (arith, inv.origin, nz);
    head_kept = ground (arith, inv.head_kept);
    closed = closed;
    ordered = ordered;
    gone = λ a h. (new_node a (inv.gone a h).0, (inv.gone a h).1);
    once = inv.once;
  }
    where
      closed :
          (a : ℕ)
          → (a ≡ 0) ⊎ IsNode (allocate i x value g) a
          → (next (allocate i x value g) a).ptr ≢ 0
          → IsNode (allocate i x value g) (next (allocate i x value g) a).ptr
      closed a from z =
          let old : (a ≡ 0) ⊎ IsNode g a = elim from [
            | inl e ↦ inl e
            | inr m ↦ inr (old_node a m)
          ] in
          let e : (next (allocate i x value g) a).ptr ≡ (next g a).ptr =
            ap (λ (l : Link). l.ptr) (same_at a old) in
          subst (IsNode (allocate i x value g)) (sym e)
            (new_node (next g a).ptr (inv.closed a old (λ y. z (e ∙ y))))

      ordered :
          (a : ℕ)
          → IsNode (allocate i x value g) a
          → (next (allocate i x value g) a).ptr ≢ 0
          → Less o
              ((allocate i x value g).memory.elems a)
              ((allocate i x value g).memory.elems (next (allocate i x value g) a).ptr)
      ordered a m z =
          let old : IsNode g a = old_node a m in
          let e : (next (allocate i x value g) a).ptr ≡ (next g a).ptr =
            ap (λ (l : Link). l.ptr) (same_at a (inr old)) in
          let y : (next g a).ptr ≢ 0 = λ y. z (e ∙ y) in
          subst
            (λ b.
              Less o ((allocate i x value g).memory.elems a)
                ((allocate i x value g).memory.elems b))
            (sym e)
            (rw (same_elem a old, same_elem (next g a).ptr (inv.closed a (inr old) y))
              (inv.ordered a old y))

  pub allocate-Grows : Grows o i g (allocate i x value g)
  allocate-Grows = record {
    nodes = new_node;
    elems = same_elem;
    marks = λ a m d. same_at a (inr m);
    frozen = λ a m d. ap (λ (l : Link). l.ptr) (same_at a (inr m));
    theirs = λ y j s ne. ground (arith, s, fresh);
  }

  -- A node that is not linked is not an element.
  pub allocate-SameSet : SameSet o g (allocate i x value g)
  allocate-SameSet w = (
    λ (a, m, live, e).
        let old : IsNode g a = old_node a m in
        (
          a,
          old,
          subst (λ (l : Link). l.deleted ≡ false) (same_at a (inr old)) live,
          subst (λ v. o.cmp v w ≡ Ordering.eq) (same_elem a old) e,
        ),
    λ (a, m, live, e). (
      a,
      new_node a m,
      subst (λ (l : Link). l.deleted ≡ false) (sym (same_at a (inr m))) live,
      subst (λ v. o.cmp v w ≡ Ordering.eq) (sym (same_elem a m)) e,
    ),
  )
