-- ===== src/Retired/Threads/Invariant.antt =====
-- What holds of the abandoned bags while threads push and take them, and what an access does: src/retired.rs.
use hazptr.Prelude.{ℕ, ◌≡◌, ◌≢◌, ◌∙◌, true, false, some, List, elem, length}
use hazptr.Std.Linked.{IsList}
use hazptr.Retired
use hazptr.Retired.{Link, RetiredBag}
use hazptr.Retired.Threads.{
  Bags, Pc, ready, push_load, push_store, push_exchange, pushed, take_probe, take_swap, taken,
  merge_taken, unused, owned, inside, Shared, is_idle,
}
use hazptr.Retired.Threads.Merging.{links, inner_of}

module _ {R : Type 0} where
  -- The bags of the queue, from the head on.
  pub record Inv (g : Shared R) (contents : List ℕ) : Type 0 where
    pub listed : IsList g.bags.next 0 contents
    pub member : (a : ℕ) → elem a contents ≡ true → g.status a ≡ inside
    pub whole : (a : ℕ) → g.status a ≡ inside → elem a contents ≡ true
    pub origin : g.status 0 ≡ unused

  -- What thread `i` knows of the bag that it pushes.
  abbrev pub Knows : Shared R → ℕ → Pc → Type 0
  Knows g i ready = Unit {0}
  Knows g i (push_load bag) = (g.status bag ≡ owned i) × (bag ≢ 0)
  Knows g i (push_store bag head) = (g.status bag ≡ owned i) × (bag ≢ 0)
  Knows g i (push_exchange bag head) =
      (g.status bag ≡ owned i) × (bag ≢ 0) × (g.bags.next bag ≡ head)
  Knows g i (pushed bag) = Unit {0}
  Knows g i take_probe = Unit {0}
  Knows g i take_swap = Unit {0}
  Knows g i (taken queue) = Unit {0}

  -- What an action leaves to thread `j`: the bag that it pushes.
  abbrev pub Leaves : ℕ → Shared R → Shared R → Type 0
  Leaves j g g' =
      (a : ℕ)
      → g.status a ≡ owned j
      → a ≢ 0
      → (g'.status a ≡ owned j)
        × (g'.bags.next a ≡ g.bags.next a)
        × (g'.bags.inner a ≡ g.bags.inner a)

  pub Knows-Leaves :
      (j : ℕ) (g g' : Shared R) (pc : Pc) → Leaves j g g' → Knows g j pc → Knows g' j pc
  Knows-Leaves j g g' ready w k = tt
  Knows-Leaves j g g' (push_load bag) w (o, nz) = ((w bag o nz).0, nz)
  Knows-Leaves j g g' (push_store bag head) w (o, nz) = ((w bag o nz).0, nz)
  Knows-Leaves j g g' (push_exchange bag head) w (o, nz, e) =
      ((w bag o nz).0, nz, (w bag o nz).1 ∙ e)
  Knows-Leaves j g g' (pushed bag) w k = tt
  Knows-Leaves j g g' take_probe w k = tt
  Knows-Leaves j g g' take_swap w k = tt
  Knows-Leaves j g g' (taken queue) w k = tt

  -- The sequential operations on the chains that the addresses stand for.
  abbrev pub push_link : RetiredBag R → Link R → Link R
  push_link b l = (Retired.push (record { head = l }) b).head

  -- What an access does: nothing that is seen, or the whole of one operation.
  pub data Effect (m m' : Bags R) (before after : List ℕ) : Pc → Pc → Type 0 where
    quiet :
        (pc pc' : Pc)
        → is_idle pc' ≡ is_idle pc
        → links m'.inner after ≡ links m.inner before
        → Effect m m' before after pc pc'
    pushes :
        (bag head : ℕ) (stale : Link R)
        → links m'.inner after
          ≡ push_link (record { inner = m.inner bag; next = stale }) (links m.inner before)
        → Effect m m' before after (push_exchange bag head) (pushed bag)
    takes :
        (pc : Pc) (queue : ℕ)
        → is_idle pc ≡ false
        → merge_taken (length before) m' queue
          ≡ some (inner_of (Retired.take_and_merge (record { head = links m.inner before })).0)
        → links m'.inner after
          ≡ (Retired.take_and_merge (record { head = links m.inner before })).1.head
        → Effect m m' before after pc (taken queue)

  pub record Goes (i : ℕ) (g : Shared R) (before : List ℕ) (pc : Pc) (r : Shared R × Pc)
      : Type 0 where
    pub after : List ℕ
    pub inv : Inv r.0 after
    pub knows : Knows r.0 i r.1
    pub leaves : (j : ℕ) → j ≢ i → Leaves j g r.0
    pub effect : Effect g.bags r.0.bags before after pc r.1
