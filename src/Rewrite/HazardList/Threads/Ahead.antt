-- ===== src/Rewrite/HazardList/Threads/Ahead.antt =====
-- What an access of a scan makes of a hazard that a thread has, in the rewrite's list of hazards: hazptr_rewrite/src/global.rs and hazptr_rewrite/src/hazard/list.rs.
use hazptr.Prelude.{
  ℕ, zero, suc, ◌≤◌, ◌<◌, ◌≡◌, ◌≢◌, ◌⊎◌, inl, inr, refl, sym, subst, ◌∙◌, true, List, [], ◌∷◌, ◌++◌,
  arith, ◌==◌, elem, elem-append, Bool-cases,
}
use hazptr.Rewrite.HazardList.{elements}
use hazptr.Rewrite.HazardList.Collect.{IsAddress}
use hazptr.Rewrite.HazardList.Threads.{Shared, System, Reached}
use hazptr.Rewrite.HazardList.Threads.Invariant.{IsLinked, IsUsed, Inv}
use hazptr.Rewrite.HazardList.Threads.Apart.{Reached-Good}
use hazptr.Rewrite.HazardList.Threads.Growing.{
  IsLocation, Leads, arrives, goes, Leads-nonzero, next-IsLinked,
}
use hazptr.Rewrite.HazardList.Threads.Scan.{
  Iter, load_next, load_word, ended, Scan, next_hazard, collect, scan,
}

-- What the scan knows before its next access.
abbrev pub IterKnows : Shared → Iter → Type 0
IterKnows g (load_next prev) = IsLocation g prev
IterKnows g (load_word node idx) = IsLinked g node × (idx < elements)
IterKnows g ended = Unit {0}

-- The scan has still to look at the hazard.
abbrev pub IsAhead : Shared → (node idx : ℕ) → Iter → Type 0
IsAhead g node idx (load_next prev) = Leads g.nodes.next prev node
IsAhead g node idx (load_word n x) = ((n ≡ node) × (x ≤ idx)) ⊎ Leads g.nodes.next n node
IsAhead g node idx ended = ⊥

-- Hazards are acquired in order within a node.
IsUsed-before :
    (g : Shared) (a k n : ℕ) → Inv g → IsLinked g a → k ≤ n → IsUsed g a n → IsUsed g a k
IsUsed-before g a k zero inv m le u = subst (IsUsed g a) (omega (arith, le)) u
IsUsed-before g a k (suc n) inv m le u = elim (Bool-cases (k == suc n)) [
  | inl same ↦ subst (IsUsed g a) (ground (arith, same)) u
  | inr other ↦ IsUsed-before g a k n inv m (ground (arith, le, other)) (inv.ordered a n m u)
]

module _ (i node idx word : ℕ) (addr : IsAddress word) (s : System) (r : Reached s)
    (has : s.shared.has i node idx ≡ true) (here : s.shared.nodes.words node idx ≡ word) where
  inv : Inv s.shared
  inv = (Reached-Good s r).inv

  -- Where the hazard is ahead, no hazard that the scan looks at has never been used.
  ahead-IsUsed :
      (n x : ℕ)
      → IsLinked s.shared n
      → x < elements
      → IsAhead s.shared node idx (load_word n x)
      → IsUsed s.shared n x
  ahead-IsUsed n x m lt (inl (e, le)) =
      subst (λ n. IsUsed s.shared n x) (sym e)
        (IsUsed-before s.shared node x idx inv (subst (IsLinked s.shared) e m) le
          (λ z. omega (arith, addr, sym here ∙ z)))
  ahead-IsUsed n x m lt (inr w) = inv.full n m (Leads-nonzero s.shared.nodes.next n node w) x lt

  next_hazard-Knows :
      (n x : ℕ) → IsLinked s.shared n → x < elements → IterKnows s.shared (next_hazard n x)
  next_hazard-Knows n x m lt = elim (Bool-cases (suc x == elements)) [
    | inl last ↦ rw last (inr m)
    | inr more ↦
        let e : suc x ≢ elements = ground (arith, more) in rw more (m, omega (arith, lt, e))
  ]

  -- Past another hazard, the one is still ahead.
  next_hazard-IsAhead :
      (n x : ℕ)
      → ((n ≡ node) × (x < idx)) ⊎ Leads s.shared.nodes.next n node
      → IsAhead s.shared node idx (next_hazard n x)
  next_hazard-IsAhead n x h = elim (Bool-cases (suc x == elements)) [
    | inl last ↦ rw last (elim h [
      | inl (e, lt) ↦
          let end : suc x ≡ elements = ground (arith, last) in
          absurd (omega (arith, lt, (inv.busy i node idx has).2, end))
      | inr w ↦ w
    ])
    | inr more ↦ rw more (elim h [ inl (e, lt) ↦ inl (e, omega (arith, lt)) | inr w ↦ inr w ])
  ]

  -- What the scan makes of a hazard that it looks at.
  unfoldable pub Looks : Scan → Type 0
  Looks c =
      IterKnows s.shared c.iter
      × ((elem word c.protected ≡ true) ⊎ IsAhead s.shared node idx c.iter)

  module _ (n x : ℕ) (m : IsLinked s.shared n) (lt : x < elements) (protected : List ℕ) where
    passed :
        s.shared.nodes.words n x ≢ word
        → IsAhead s.shared node idx (load_word n x)
        → ((n ≡ node) × (x < idx)) ⊎ Leads s.shared.nodes.next n node
    passed ne (inl (e, le)) = elim (Bool-cases (x == idx)) [
      | inl same ↦
          let f : x ≡ idx = ground (arith, same) in
          absurd (
            ne (
              subst (λ n. s.shared.nodes.words n x ≡ word) (sym e)
                (subst (λ k. s.shared.nodes.words node k ≡ word) (sym f) here)))
      | inr other ↦ inl (e, ground (arith, le, other))
    ]
    passed ne (inr w) = inr w

    -- The scan goes on, with nothing lost of what it has collected.
    goes_on :
        (l : List ℕ)
        → (elem word protected ≡ true → elem word l ≡ true)
        → (s.shared.nodes.words n x ≡ word → elem word l ≡ true)
        → (elem word protected ≡ true) ⊎ IsAhead s.shared node idx (load_word n x)
        → Looks (record { iter = next_hazard n x; protected = l })
    unfolding Looks
    goes_on l kept now (inl f) = (next_hazard-Knows n x m lt, inl (kept f))
    goes_on l kept now (inr a) = elim (Bool-cases (s.shared.nodes.words n x == word)) [
      | inl same ↦ (next_hazard-Knows n x m lt, inl (now (ground (arith, same))))
      | inr other ↦
          let ne : s.shared.nodes.words n x ≢ word = ground (arith, other) in
          (next_hazard-Knows n x m lt, inr (next_hazard-IsAhead n x (passed ne a)))
    ]

    collect-Looks :
        (v : ℕ)
        → s.shared.nodes.words n x ≡ v
        → (elem word protected ≡ true) ⊎ IsAhead s.shared node idx (load_word n x)
        → Looks (collect n x v protected)
    unfolding Looks
    collect-Looks zero e h =
        goes_on protected (λ f. f) (λ f. absurd (omega (arith, addr, sym e ∙ f))) h
    collect-Looks (suc zero) e h =
        goes_on protected (λ f. f) (λ f. absurd (omega (arith, addr, sym e ∙ f))) h
    collect-Looks (suc (suc zero)) e (inl f) = (tt, inl f)
    collect-Looks (suc (suc zero)) e (inr a) = absurd (ahead-IsUsed n x m lt a e)
    collect-Looks (suc (suc (suc v))) e h =
        goes_on (protected ++ suc (suc (suc v)) ∷ [])
          (λ f. ground (arith, f, elem-append word protected (suc (suc (suc v)) ∷ [])))
          (λ f. ground (arith, sym e ∙ f, elem-append word protected (suc (suc (suc v)) ∷ []))) h

  pub scan-Looks :
      (iter : Iter) (l : List ℕ)
      → Looks (record { iter = iter; protected = l })
      → Looks (scan s.shared.nodes iter l)
  unfolding Looks scan
  scan-Looks (load_next prev) l (k, h) = elim (Bool-cases (s.shared.nodes.next prev == 0)) [
    | inl null ↦ rw null (
      tt,
      elim h [
        | inl f ↦ inl f
        | inr w ↦ absurd (Leads-nonzero s.shared.nodes.next prev node w (ground (arith, null)))
      ],
    )
    | inr more ↦ rw more (
      (next-IsLinked s.shared prev inv k (ground (arith, more)), ground arith),
      elim h [ inl f ↦ inl f | inr w ↦ inr (onward prev w) ],
    )
  ]
    where
      onward :
          (p : ℕ)
          → Leads s.shared.nodes.next p node
          → IsAhead s.shared node idx (load_word (s.shared.nodes.next p) 0)
      onward _ (arrives p _ e nz) = inl (e, omega arith)
      onward _ (goes p q _ e nz w) = inr (subst (λ q. Leads s.shared.nodes.next q node) (sym e) w)
  scan-Looks (load_word n x) l (k, h) =
      collect-Looks n x k.0 k.1 l (s.shared.nodes.words n x) refl h
  scan-Looks ended l h = h
