-- ===== src/HashSet/OrderedSet/Invariant.antt =====
-- What holds of the ordered set in every state, whatever the threads are in the middle of, and what a
-- thread knows at each of its steps: examples/hash_set/ordered.rs.
use hazptr.Prelude.{
  update, ℕ, ◌≡◌, ◌≢◌, ◌⊎◌, inl, inr, refl, ap, ◌∙◌, Bool, true, false, List, [], ◌∷◌,
  if◌then◌else◌, Ordering, elem,
}
use hazptr.HashSet.OrderedSet.{
  Order, Link, link, marked, Memory, Op, insert_node, remove_node, cleanup, get, Pc, load_curr,
  load_next, compare_next, protect_next, check_prev, unlink, store_next, link_node, mark,
  unlink_marked, finished, succeeds, step,
}
use hazptr.HashSet.OrderedSet.Chain.{IsChain}

-- What has become of a node: a thread that inserts it has it alone until it is linked.
pub data Status : Type 0 where
  unused : Status
  owned : (thread : ℕ) → Status
  published : Status

-- The memory, with the status of each node, which the code does not keep.
pub record Shared (T : Type 0) : Type 0 where
  pub memory : Memory T
  pub status : ℕ → Status

abbrev pub IsDistinct : List ℕ → Type 0
IsDistinct [] = Unit {0}
IsDistinct (a ∷ l) = (elem a l ≡ false) × IsDistinct l

module _ {T : Type 0} where
  abbrev pub next : Shared T → ℕ → Link
  next g a = g.memory.next a

  abbrev pub IsNode : Shared T → ℕ → Type 0
  IsNode g a = g.status a ≡ published

  -- A successful `compare_exchange` of `insert_node` publishes the node.
  abbrev pub publish : Memory T → Pc → (ℕ → Status) → ℕ → Status
  publish m (link_node node prev next) status =
      if succeeds m prev (link next) then update status node published else status
  publish m (load_curr prev) status = status
  publish m (load_next prev curr) status = status
  publish m (compare_next prev curr raw) status = status
  publish m (protect_next prev curr) status = status
  publish m (check_prev prev curr next) status = status
  publish m (unlink prev curr next) status = status
  publish m (store_next node prev next) status = status
  publish m (mark prev curr next) status = status
  publish m (unlink_marked prev curr next) status = status
  publish m (finished a) status = status

  -- A step of the code, with the status.
  unfoldable pub advance : Order T → Bool → Op → T → Shared T → Pc → Shared T × Op × Pc
  unfolding step
  advance o changed op value g pc =
      let r = step o changed op value g.memory pc in
      (record { memory = r.0; status = publish g.memory pc g.status }, r.1, r.2)

module _ {T : Type 0} (o : Order T) where
  abbrev pub Less : T → T → Type 0
  Less a b = o.cmp a b ≡ Ordering.lt

  pub record Inv (g : Shared T) : Type 0 where
    pub chain : List ℕ
    pub linked : IsChain (next g) 0 chain
    pub member : (a : ℕ) → elem a chain ≡ true → IsNode g a
    pub reach : (a : ℕ) → IsNode g a → (next g a).deleted ≡ false → elem a chain ≡ true
    pub origin : g.status 0 ≡ unused
    pub head_kept : (next g 0).deleted ≡ false
    pub closed : (a : ℕ) → (a ≡ 0) ⊎ IsNode g a → (next g a).ptr ≢ 0 → IsNode g (next g a).ptr
    pub ordered :
        (a : ℕ)
        → IsNode g a
        → (next g a).ptr ≢ 0
        → Less (g.memory.elems a) (g.memory.elems (next g a).ptr)
    pub gone : (a : ℕ) → elem a g.memory.retired ≡ true → IsNode g a × (elem a chain ≡ false)
    pub once : IsDistinct g.memory.retired

  -- A location before the value, and a node behind it.
  abbrev pub Before : Shared T → ℕ → T → Type 0
  Before g p value = (p ≡ 0) ⊎ (IsNode g p × Less (g.memory.elems p) value)

  abbrev pub Beyond : Shared T → ℕ → T → Type 0
  Beyond g n value = (n ≡ 0) ⊎ (IsNode g n × Less value (g.memory.elems n))

  abbrev pub Owns : Shared T → ℕ → ℕ → T → Type 0
  Owns g i x value = (g.status x ≡ owned i) × (x ≢ 0) × (g.memory.elems x ≡ value)

  abbrev pub Holds : Shared T → ℕ → Op → T → Type 0
  Holds g i (insert_node x) value = Owns g i x value
  Holds g i remove_node value = Unit {0}
  Holds g i cleanup value = Unit {0}
  Holds g i get value = Unit {0}

  -- What thread `i` knows before the access that `pc` names.
  abbrev pub Knows : Shared T → ℕ → Op → T → Pc → Type 0
  Knows g i op value (load_curr p) = Holds g i op value × Before g p value
  Knows g i op value (load_next p c) = Holds g i op value × Before g p value × IsNode g c
  Knows g i op value (compare_next p c raw) = Holds g i op value × Before g p value × IsNode g c
  Knows g i op value (protect_next p c) = Holds g i op value × Before g p value × IsNode g c
  Knows g i op value (check_prev p c l) =
      Holds g i op value × Before g p value × IsNode g c × (l.deleted ≡ true → next g c ≡ l)
  Knows g i op value (unlink p c n) =
      Holds g i op value × Before g p value × IsNode g c × (next g c ≡ marked n)
  Knows g i op value (store_next x p n) =
      Owns g i x value × Before g p value × Beyond g n value × (op ≡ insert_node x)
  Knows g i op value (link_node x p n) =
      Owns g i x value
      × Before g p value
      × Beyond g n value
      × (op ≡ insert_node x)
      × (next g x ≡ link n)
  Knows g i op value (mark p c n) =
      (op ≡ remove_node)
      × Before g p value
      × IsNode g c
      × (o.cmp (g.memory.elems c) value ≡ Ordering.eq)
  Knows g i op value (unlink_marked p c n) = Before g p value × IsNode g c × (next g c ≡ marked n)
  Knows g i op value (finished a) = Unit {0}

  -- What thread `i` leaves to the others: nodes stay nodes with their elements, links that are marked
  -- stay, a link is marked with the pointer that it has, and the nodes that others own are left alone.
  pub record Grows (i : ℕ) (g g' : Shared T) : Type 0 where
    pub nodes : (a : ℕ) → IsNode g a → IsNode g' a
    pub elems : (a : ℕ) → IsNode g a → g'.memory.elems a ≡ g.memory.elems a
    pub marks : (a : ℕ) → IsNode g a → (next g a).deleted ≡ true → next g' a ≡ next g a
    pub frozen :
        (a : ℕ) → IsNode g a → (next g' a).deleted ≡ true → (next g' a).ptr ≡ (next g a).ptr
    pub theirs :
        (x j : ℕ)
        → g.status x ≡ owned j
        → j ≢ i
        → (g'.status x ≡ owned j) × (g'.memory.elems x ≡ g.memory.elems x) × (next g' x ≡ next g x)

  pub same-Grows : (i : ℕ) (g : Shared T) → Grows i g g
  same-Grows i g = record {
    nodes = λ a m. m;
    elems = λ a m. refl;
    marks = λ a m d. refl;
    frozen = λ a m d. refl;
    theirs = λ x j s ne. (s, refl, refl);
  }

  module _ (i j : ℕ) (g g' : Shared T) (ne : j ≢ i) (w : Grows i g g') where
    Owns-Grows : (x : ℕ) (value : T) → Owns g j x value → Owns g' j x value
    Owns-Grows x value (s, z, e) = let t = w.theirs x j s ne in (t.0, z, t.1 ∙ e)

    Before-Grows : (p : ℕ) (value : T) → Before g p value → Before g' p value
    Before-Grows p value (inl z) = inl z
    Before-Grows p value (inr (n, l)) = inr (w.nodes p n, rw (w.elems p n) l)

    Beyond-Grows : (p : ℕ) (value : T) → Beyond g p value → Beyond g' p value
    Beyond-Grows p value (inl z) = inl z
    Beyond-Grows p value (inr (n, l)) = inr (w.nodes p n, rw (w.elems p n) l)

    Holds-Grows : (op : Op) (value : T) → Holds g j op value → Holds g' j op value
    Holds-Grows (insert_node x) value h = Owns-Grows x value h
    Holds-Grows remove_node value h = tt
    Holds-Grows cleanup value h = tt
    Holds-Grows get value h = tt

    marked-Grows : (c n : ℕ) → IsNode g c → next g c ≡ marked n → next g' c ≡ marked n
    marked-Grows c n h e = w.marks c h (ap (λ l. l.deleted) e) ∙ e

    -- What another thread knows stays true.
    pub Knows-Grows :
        (op : Op) (value : T) (pc : Pc) → Knows g j op value pc → Knows g' j op value pc
    Knows-Grows op value (load_curr p) (h, b) = (Holds-Grows op value h, Before-Grows p value b)
    Knows-Grows op value (load_next p c) (h, b, n) =
        (Holds-Grows op value h, Before-Grows p value b, w.nodes c n)
    Knows-Grows op value (compare_next p c raw) (h, b, n) =
        (Holds-Grows op value h, Before-Grows p value b, w.nodes c n)
    Knows-Grows op value (protect_next p c) (h, b, n) =
        (Holds-Grows op value h, Before-Grows p value b, w.nodes c n)
    Knows-Grows op value (check_prev p c l) (h, b, n, m) = (
      Holds-Grows op value h,
      Before-Grows p value b,
      w.nodes c n,
      λ d. w.marks c n (ap (λ k. k.deleted) (m d) ∙ d) ∙ m d,
    )
    Knows-Grows op value (unlink p c n) (h, b, k, m) =
        (Holds-Grows op value h, Before-Grows p value b, w.nodes c k, marked-Grows c n k m)
    Knows-Grows op value (store_next x p n) (h, b, y, e) =
        (Owns-Grows x value h, Before-Grows p value b, Beyond-Grows n value y, e)
    Knows-Grows op value (link_node x p n) (h, b, y, e, l) = (
      Owns-Grows x value h,
      Before-Grows p value b,
      Beyond-Grows n value y,
      e,
      (w.theirs x j h.0 ne).2 ∙ l,
    )
    Knows-Grows op value (mark p c n) (e, b, k, q) =
        (e, Before-Grows p value b, w.nodes c k, rw (w.elems c k) q)
    Knows-Grows op value (unlink_marked p c n) (b, k, m) =
        (Before-Grows p value b, w.nodes c k, marked-Grows c n k m)
    Knows-Grows op value (finished a) k = tt
