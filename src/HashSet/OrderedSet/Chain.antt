-- ===== src/HashSet/OrderedSet/Chain.antt =====
-- The nodes that the list leads to: examples/hash_set/ordered.rs.
use hazptr.Prelude.{
  update, ℕ, ◌≡◌, ◌≢◌, refl, sym, ap, ◌∙◌, inl, inr, true, false, not, ◌&&◌, ◌||◌, List, [], ◌∷◌,
  arith, ◌==◌, if◌then◌else◌, Bool-cases, elem,
}
use hazptr.HashSet.OrderedSet.{Link, link}

-- From the location `p` the pointers lead through the distinct nodes `l` to null.
abbrev pub IsChain : (ℕ → Link) → ℕ → List ℕ → Type 0
IsChain next p [] = (next p).ptr ≡ 0
IsChain next p (a ∷ l) = ((next p).ptr ≡ a) × (a ≢ 0) × (elem p (a ∷ l) ≡ false) × IsChain next a l

-- The nodes behind `p` with `x` put behind the location `q`.
pub after : ℕ → ℕ → ℕ → List ℕ → List ℕ
after q x p [] = if q == p then x ∷ [] else []
after q x p (a ∷ l) = if q == p then x ∷ a ∷ l else a ∷ after q x a l

pub without : ℕ → List ℕ → List ℕ
without c [] = []
without c (a ∷ l) = if a == c then l else a ∷ without c l

-- Another location that leads to the same node.
IsChain-move :
    (next : ℕ → Link) (p q : ℕ) (l : List ℕ)
    → (next q).ptr ≡ (next p).ptr
    → elem q l ≡ false
    → IsChain next p l
    → IsChain next q l
IsChain-move next p q [] e out c = e ∙ c
IsChain-move next p q (a ∷ l) e out c = (e ∙ c.0, c.1, out, c.3)

module _ (next : ℕ → Link) where
  pub IsChain-frame :
      (q : ℕ) (w : Link) (p : ℕ) (l : List ℕ)
      → elem q (p ∷ l) ≡ false
      → IsChain next p l
      → IsChain (update next q w) p l
  IsChain-frame q w p [] out c = ground (arith, out, c)
  IsChain-frame q w p (a ∷ l) out c =
      let other : (q == p) ≡ false = ground (arith, out) in
      rw other (c.0, c.1, c.2, IsChain-frame q w a l (ground (arith, out)) c.3)

  -- Only the pointers count, not the tags.
  pub IsChain-same :
      (next' : ℕ → Link) (p : ℕ) (l : List ℕ)
      → ((a : ℕ) → (next' a).ptr ≡ (next a).ptr)
      → IsChain next p l
      → IsChain next' p l
  IsChain-same next' p [] same c = same p ∙ c
  IsChain-same next' p (a ∷ l) same c = (same p ∙ c.0, c.1, c.2, IsChain-same next' a l same c.3)

  pub IsChain-distinct : (p : ℕ) (l : List ℕ) → IsChain next p l → elem p l ≡ false
  IsChain-distinct p [] h = refl
  IsChain-distinct p (a ∷ l) h = h.2

  pub elem-after :
      (q x p b : ℕ) (l : List ℕ)
      → elem q (p ∷ l) ≡ true
      → elem b (after q x p l) ≡ (b == x || elem b l)
  unfolding after
  elem-after q x p b [] there = ground (arith, there)
  elem-after q x p b (a ∷ l) there = ground (arith, there, elem-after q x a b l)

  pub elem-without :
      (c b p : ℕ) (l : List ℕ)
      → IsChain next p l
      → elem b (without c l) ≡ (elem b l && not (b == c))
  unfolding without
  elem-without c b p [] h = ground arith
  elem-without c b p (a ∷ []) h = ground arith
  elem-without c b p (a ∷ d ∷ l) h = ground (arith, elem-without c b a (d ∷ l) h.3, h.3.2)

  -- A node put behind a location that leads where the node leads.
  pub IsChain-after :
      (q x p : ℕ) (l : List ℕ)
      → elem q (p ∷ l) ≡ true
      → elem x (p ∷ l) ≡ false
      → x ≢ 0
      → (next x).ptr ≡ (next q).ptr
      → IsChain next p l
      → IsChain (update next q (link x)) p (after q x p l)
  unfolding after
  IsChain-after q x p [] there out ne e c =
      let here : (q == p) ≡ true = ground (arith, there) in
      rw here (rw here refl, ne, ground (arith, out), ground (arith, out, here, e, c))
  IsChain-after q x p (a ∷ l) there out ne e c = elim (Bool-cases (q == p)) [
    | inl here ↦
        let s : q ≡ p = ground (arith, here) in
        let moved : IsChain next x (a ∷ l) =
          IsChain-move next p x (a ∷ l) (e ∙ ap (λ r. (next r).ptr) s) (ground (arith, out)) c in
        rw here (
          rw here refl,
          ne,
          ground (arith, out, c.2),
          IsChain-frame q (link x) x (a ∷ l) (ground (arith, out, c.2, s)) moved,
        )
    | inr later ↦ rw later (
      rw later c.0,
      c.1,
      ground (arith, elem-after q x a p l (ground (arith, there, later)), out, c.2),
      IsChain-after q x a l (ground (arith, there, later)) (ground (arith, out)) ne e c.3,
    )
  ]

  -- The node that a location leads to taken out.
  pub IsChain-without :
      (q c p : ℕ) (l : List ℕ)
      → elem q (p ∷ l) ≡ true
      → (next q).ptr ≡ c
      → c ≢ 0
      → IsChain next p l
      → IsChain (update next q (link (next c).ptr)) p (without c l) × (elem c l ≡ true)
  unfolding without
  IsChain-without q c p [] there e ne h = absurd (ground (arith, there, e, ne, h))
  IsChain-without q c p (a ∷ l) there e ne h = elim (Bool-cases (q == p)) [
    | inl here ↦
        let s : q ≡ p = ground (arith, here) in
        let t : a ≡ c = sym h.0 ∙ ap (λ r. (next r).ptr) (sym s) ∙ e in first s t
    | inr later ↦ rest later (IsChain-without q c a l (ground (arith, there, later)) e ne h.3)
  ]
    where
      first :
          q ≡ p
          → a ≡ c
          → IsChain (update next q (link (next c).ptr)) p (without c (a ∷ l))
            × (elem c (a ∷ l) ≡ true)
      first s t =
          let same : (a == c) ≡ true = ground (arith, t) in
          let moved : IsChain (update next q (link (next c).ptr)) a l =
            IsChain-frame q (link (next c).ptr) a l (ground (arith, s, h.2)) h.3 in
          let shown : (update next q (link (next c).ptr) p).ptr
              ≡ (update next q (link (next c).ptr) a).ptr =
            ground (arith, s, t, h.2) in
          rw same (
            IsChain-move (update next q (link (next c).ptr)) a p l shown (ground (arith, h.2))
                moved,
            ground (arith, t),
          )

      rest :
          (q == p) ≡ false
          → IsChain (update next q (link (next c).ptr)) a (without c l) × (elem c l ≡ true)
          → IsChain (update next q (link (next c).ptr)) p (without c (a ∷ l))
            × (elem c (a ∷ l) ≡ true)
      rest later (chain, in_l) =
          let other : (a == c) ≡ false = ground (arith, in_l, IsChain-distinct a l h.3) in
          rw other (
            (rw later h.0, h.1, ground (arith, elem-without c p a l h.3, h.2), chain),
            ground (arith, in_l),
          )
