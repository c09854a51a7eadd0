-- ===== src/HashSet/OrderedSet/Writes.antt =====
-- The writes of the ordered set keep its invariant: examples/hash_set/ordered.rs.
use hazptr.Prelude.{ℕ, ◌≡◌, ◌⊎◌, inl, inr, refl, sym, ap, subst, ◌∙◌, true, false, ◌∷◌, arith, elem}
use hazptr.HashSet.OrderedSet.{Order, Link, link, marked, write, retire}
use hazptr.HashSet.OrderedSet.Chain.{IsChain-frame, IsChain-same}
use hazptr.HashSet.OrderedSet.Invariant.{Shared, Inv, IsNode, Less, Owns, next, Grows}
use hazptr.HashSet.OrderedSet.Sorted.{node_ne_zero}

module _ {T : Type 0} (o : Order T) (i : ℕ) (g : Shared T) (inv : Inv o g) where
  abbrev pub wrote : ℕ → Link → Shared T
  wrote p l = record g { memory = write g.memory p l }

  -- The state after `compare_exchange(curr, next, ..)` has unlinked `curr`, and `retire`.
  abbrev pub unlinked : ℕ → ℕ → ℕ → Shared T
  unlinked p c n = record g { memory = retire (write g.memory p (link n)) c }

  pub kept_location :
      (p : ℕ) → (p ≡ 0) ⊎ IsNode g p → (next g p).deleted ≡ false → elem p (0 ∷ inv.chain) ≡ true
  kept_location p (inl z) live = ground (arith, z)
  kept_location p (inr n) live = ground (arith, inv.reach p n live)

  module _ (c n : ℕ) (node : IsNode g c) (at_c : next g c ≡ link n) where
    c_unmarked : (next g c).deleted ≡ false
    c_unmarked = ap (λ (l : Link). l.deleted) at_c

    same_ptr : (a : ℕ) → (next (wrote c (marked n)) a).ptr ≡ (next g a).ptr
    same_ptr a = ground (arith, at_c)

    -- Marking a node keeps the invariant.
    pub mark-Inv : Inv o (wrote c (marked n))
    mark-Inv = record {
      chain = inv.chain;
      linked = IsChain-same (next g) (next (wrote c (marked n))) 0 inv.chain same_ptr inv.linked;
      member = inv.member;
      reach = λ a m live. inv.reach a m (ground (arith, live));
      origin = inv.origin;
      head_kept = ground (arith, inv.head_kept, node_ne_zero o g inv c node);
      closed = λ a from nz.
          subst (IsNode g) (sym (same_ptr a)) (inv.closed a from (λ z. nz (same_ptr a ∙ z)));
      ordered = λ a m nz.
          subst (λ b. Less o (g.memory.elems a) (g.memory.elems b)) (sym (same_ptr a))
            (inv.ordered a m (λ z. nz (same_ptr a ∙ z)));
      gone = inv.gone;
      once = inv.once;
    }

    pub mark-Grows : Grows o i g (wrote c (marked n))
    mark-Grows = record {
      nodes = λ a m. m;
      elems = λ a m. refl;
      marks = λ a m d. ground (arith, d, c_unmarked);
      frozen = λ a m d. same_ptr a;
      theirs = λ x j s ne. (s, refl, ground (arith, s, node));
    }

  module _ (x n : ℕ) (value : T) (mine : Owns o g i x value) where
    x_out : elem x (0 ∷ inv.chain) ≡ false
    x_out = ground (arith, mine.0, mine.1, inv.member x)

    -- A thread may set the pointer of a node that it has not linked yet.
    pub store-Inv : Inv o (wrote x (link n))
    store-Inv = record {
      chain = inv.chain;
      linked = IsChain-frame (next g) x (link n) 0 inv.chain x_out inv.linked;
      member = inv.member;
      reach = λ a m live. inv.reach a m (ground (arith, live, m, mine.0));
      origin = inv.origin;
      head_kept = ground (arith, inv.head_kept);
      closed = λ a from nz.
          subst (IsNode g) (sym (same_at a from))
            (inv.closed a from (λ z. nz (same_at a from ∙ z)));
      ordered = λ a m nz.
          subst (λ b. Less o (g.memory.elems a) (g.memory.elems b)) (sym (same_at a (inr m)))
            (inv.ordered a m (λ z. nz (same_at a (inr m) ∙ z)));
      gone = inv.gone;
      once = inv.once;
    }
      where
        same_at : (a : ℕ) → (a ≡ 0) ⊎ IsNode g a → (next (wrote x (link n)) a).ptr ≡ (next g a).ptr
        same_at a from = ground (arith, from, mine.0, mine.1)

    pub store-Grows : Grows o i g (wrote x (link n))
    store-Grows = record {
      nodes = λ a m. m;
      elems = λ a m. refl;
      marks = λ a m d. ground (arith, m, mine.0);
      frozen = λ a m d. ground (arith, d);
      theirs = λ y j s ne. (s, refl, ground (arith, s, mine.0, ne));
    }
