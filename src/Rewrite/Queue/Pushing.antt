-- ===== src/Rewrite/Queue/Pushing.antt =====
-- What a thread that pushes does to the queue and leaves to the others: hazptr_rewrite/src/queue.rs.
use hazptr.Prelude.{
  update, ℕ, ◌≡◌, ◌≢◌, ◌⊎◌, refl, sym, ◌∙◌, Bool, true, false, List, [], ◌∷◌, ◌++◌, arith, ◌==◌,
  elem, elem-append, inl, inr, Bool-cases,
}
use hazptr.Std.Linked.{IsList, IsList-frame}
use hazptr.Std.Linked.{IsDistinct}
use hazptr.Rewrite.Queue.Threads.{
  Pc, load_head, set_next, exchange, idle, is_idle, push_many, first, last, IsPath, Owner, queue,
  thread, place, owner_after,
}
use hazptr.Std.Linked.{IsList-moved, elem_zero}
use hazptr.Rewrite.Queue.Segments.{IsList-path, IsPath-kept, elem-last, IsPath-last}

-- The nodes of the queue, in order; no other node is in it.
pub record Holds (next : ℕ → ℕ) (owner : ℕ → Owner) (contents : List ℕ) : Type 0 where
  pub listed : IsList next 0 contents
  pub queued : (a : ℕ) → elem a contents ≡ true → owner a ≡ queue
  pub whole : (a : ℕ) → owner a ≡ queue → elem a contents ≡ true

-- What a thread that pushes knows of its nodes.
pub record Pushes (next : ℕ → ℕ) (owner : ℕ → Owner) (i : ℕ) (nodes : List ℕ) : Type 0 where
  pub some_node : nodes ≢ []
  pub path : IsPath next nodes
  pub distinct : IsDistinct nodes
  pub mine : (a : ℕ) → elem a nodes ≡ true → (owner a ≡ thread i) × (a ≢ 0)

abbrev pub Knows : (ℕ → ℕ) → (ℕ → Owner) → ℕ → List ℕ → Pc → Type 0
Knows next owner i nodes load_head = Pushes next owner i nodes
Knows next owner i nodes (set_next head) = Pushes next owner i nodes
Knows next owner i nodes (exchange head) = Pushes next owner i nodes × (next (last nodes) ≡ head)
Knows next owner i nodes idle = Unit {0}

-- What an access of thread `i` leaves to the others: their nodes and what these lead to.
abbrev pub Leaves : ℕ → (ℕ → ℕ) → (ℕ → Owner) → (ℕ → ℕ) → (ℕ → Owner) → Type 0
Leaves i next owner next' owner' =
    (a j : ℕ) → owner a ≡ thread j → a ≢ 0 → j ≢ i → (owner' a ≡ thread j) × (next' a ≡ next a)

IsPath-same :
    (f g : ℕ → ℕ) (nodes : List ℕ)
    → ((a : ℕ) → elem a nodes ≡ true → g a ≡ f a)
    → IsPath f nodes
    → IsPath g nodes
IsPath-same f g [] h path = tt
IsPath-same f g (a ∷ []) h path = tt
IsPath-same f g (a ∷ b ∷ l) h (e, path) =
    (h a (ground arith) ∙ e, IsPath-same f g (b ∷ l) (λ c k. h c (ground (arith, k))) path)

module _ (next next' : ℕ → ℕ) (owner owner' : ℕ → Owner) (i j : ℕ) (ne : j ≢ i)
    (w : Leaves i next owner next' owner') where
  Pushes-Leaves : (nodes : List ℕ) → Pushes next owner j nodes → Pushes next' owner' j nodes
  Pushes-Leaves nodes p = record {
    some_node = p.some_node;
    path = IsPath-same next next' nodes (λ a h. (w a j (p.mine a h).0 (p.mine a h).1 ne).1) p.path;
    distinct = p.distinct;
    mine = λ a h. ((w a j (p.mine a h).0 (p.mine a h).1 ne).0, (p.mine a h).1);
  }

  pub Knows-Leaves :
      (nodes : List ℕ) (pc : Pc) → Knows next owner j nodes pc → Knows next' owner' j nodes pc
  Knows-Leaves nodes load_head k = Pushes-Leaves nodes k
  Knows-Leaves nodes (set_next head) k = Pushes-Leaves nodes k
  Knows-Leaves nodes (exchange head) (p, e) =
      let m = p.mine (last nodes) (elem-last nodes p.some_node) in
      (Pushes-Leaves nodes p, (w (last nodes) j m.0 m.1 ne).1 ∙ e)
  Knows-Leaves nodes idle k = tt

-- An access leaves the sequence as it was, or it puts the nodes of its thread before it and ends the call.
pub record Goes (i : ℕ) (nodes : List ℕ) (next : ℕ → ℕ) (owner : ℕ → Owner) (contents : List ℕ)
    (pc : Pc) (next' : ℕ → ℕ) (owner' : ℕ → Owner) (pc' : Pc) : Type 0 where
  pub after : List ℕ
  pub holds : Holds next' owner' after
  pub knows : Knows next' owner' i nodes pc'
  pub leaves : Leaves i next owner next' owner'
  pub atomic :
      ((after ≡ contents) × (is_idle pc' ≡ is_idle pc))
      ⊎ ((after ≡ nodes ++ contents) × (is_idle pc ≡ false) × (is_idle pc' ≡ true))

module _ (i : ℕ) (nodes : List ℕ) (next : ℕ → ℕ) (owner : ℕ → Owner) (contents : List ℕ)
    (holds : Holds next owner contents) where
  reads :
      (pc pc' : Pc)
      → is_idle pc' ≡ is_idle pc
      → Knows next owner i nodes pc'
      → Goes i nodes next owner contents pc next owner pc'
  reads pc pc' e k = record {
    after = contents;
    holds = holds;
    knows = k;
    leaves = λ a j o nz ne. (o, refl);
    atomic = inl (refl, e);
  }

  set_next-Goes :
      (head : ℕ)
      → Pushes next owner i nodes
      → Goes i nodes next owner contents
          (set_next head)
          (update next (last nodes) head)
          owner
          (exchange head)
  set_next-Goes head p = record {
    after = contents;
    holds = record {
      listed = IsList-frame next (last nodes) head 0 contents out holds.listed;
      queued = holds.queued;
      whole = holds.whole;
    };
    knows = (
      record {
        some_node = p.some_node;
        path = IsPath-last next head nodes p.distinct p.path;
        distinct = p.distinct;
        mine = p.mine;
      },
      ground arith,
    );
    leaves = λ a j o nz ne. (o, ground (arith, o, m, ne));
    atomic = inl (refl, refl);
  }
    where
      m : (owner (last nodes) ≡ thread i) × (last nodes ≢ 0)
      m = p.mine (last nodes) (elem-last nodes p.some_node)

      out : elem (last nodes) (0 ∷ contents) ≡ false
      out = ground (arith, m, holds.queued (last nodes))

  exchange-Goes :
      (head : ℕ)
      → Pushes next owner i nodes
      → next (last nodes) ≡ head
      → next 0 ≡ head
      → Goes i nodes next owner contents
          (exchange head)
          (update next 0 (first nodes))
          (place nodes queue owner)
          idle
  exchange-Goes head p e at_head = record {
    after = nodes ++ contents;
    holds = record {
      listed =
          IsList-path (update next 0 (first nodes)) 0 nodes contents p.some_node (ground arith)
            (IsPath-kept next 0 (first nodes) nodes no_zero p.path) no_zero
            (IsList-frame next 0 (first nodes) (last nodes) contents out
              (IsList-moved next 0 (last nodes) contents (e ∙ sym at_head) holds.listed));
      queued = λ a h. ground (arith, h, elem-append a nodes contents, holds.queued a);
      whole = λ a h. ground (arith, h, elem-append a nodes contents, holds.whole a);
    };
    knows = tt;
    leaves = λ a j o nz ne. (ground (arith, o, p.mine a, ne), ground (arith, nz));
    atomic = inr (refl, refl, refl);
  }
    where
      no_zero : elem 0 nodes ≡ false
      no_zero = elim (Bool-cases (elem 0 nodes)) [
        | inl h ↦ absurd ((p.mine 0 h).1 refl)
        | inr h ↦ h
      ]

      out : elem 0 (last nodes ∷ contents) ≡ false
      out = ground (
        arith,
        elem_zero next 0 contents holds.listed,
        p.mine (last nodes) (elem-last nodes p.some_node),
      )

  pub push_many-Goes :
      (spurious : Bool) (pc : Pc)
      → Knows next owner i nodes pc
      → let r = push_many spurious nodes next pc in
        Goes i nodes next owner contents pc r.0 (owner_after spurious nodes next pc owner) r.1
  unfolding push_many
  push_many-Goes spurious load_head k = reads load_head (set_next (next 0)) refl k
  push_many-Goes spurious (set_next head) k = set_next-Goes head k
  push_many-Goes spurious (exchange head) (p, e) = elim (Bool-cases (next 0 == head)) [
    | inl same ↦ rw same (elim (Bool-cases spurious) [
      | inl failed ↦ rw failed (reads (exchange head) load_head refl p)
      | inr done ↦ rw done (exchange-Goes head p e (ground (arith, same)))
    ])
    | inr other ↦ rw other (reads (exchange head) load_head refl p)
  ]
  push_many-Goes spurious idle k = reads idle idle refl tt
