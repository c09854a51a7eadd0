-- ===== src/Rewrite/HazardList/Acquire.antt =====
-- What acquiring a hazard does to the hazards of all nodes: hazptr_rewrite/src/hazard/list.rs.
use hazptr.Prelude.{
  ℕ, zero, suc, ◌+◌, ◌<◌, ◌≡◌, ◌≢◌, ◌⊎◌, inl, inr, refl, ap, subst, ◌∙◌, true, false, Option, none,
  some, List, [], ◌∷◌, ◌++◌, arith, Bool-cases, length, get_elem?, All,
}
use hazptr.Rewrite.Hazard.{HazardPtr, free, not_yet_used, with_protected}
use hazptr.Rewrite.HazardList.{
  HazardArrayNode, HazardList, replicate, new_node, iter, available, try_insert_in_node,
  get_or_insert_unchecked,
}

-- The word at a position. Past the end no hazard has been used yet.
abbrev pub word : Option HazardPtr → ℕ
word none = not_yet_used
word (some h) = h.protected

abbrev pub word_at : List HazardPtr → ℕ → ℕ
word_at hs i = word (get_elem? hs i)

abbrev pub IsAvailable : ℕ → Type 0
IsAvailable w = (w ≡ free) ⊎ (w ≡ not_yet_used)

-- The first available hazard has been acquired, and no other has changed.
pub record Acquires (p : ℕ) (hs : List HazardPtr) (i : ℕ) (hs' : List HazardPtr) : Type 0 where
  pub here : word_at hs' i ≡ p
  pub was : IsAvailable (word_at hs i)
  pub first : (j : ℕ) → j < i → ¬ IsAvailable (word_at hs j)
  pub others : (j : ℕ) → j ≢ i → word_at hs' j ≡ word_at hs j

module _ (p : ℕ) where
  Acquires-head :
      (h : HazardPtr) (hs : List HazardPtr)
      → available h ≡ true
      → Acquires p (h ∷ hs) 0 (with_protected p ∷ hs)
  Acquires-head h hs e = record {
    here = refl;
    was = ground (arith, e);
    first = λ j lt. absurd (omega arith);
    others = others;
  }
    where
      others : (j : ℕ) → j ≢ 0 → word_at (with_protected p ∷ hs) j ≡ word_at (h ∷ hs) j
      others zero ne = absurd (ne refl)
      others (suc j) ne = refl

  Acquires-cons :
      (h : HazardPtr) (hs hs' : List HazardPtr) (i : ℕ)
      → available h ≡ false
      → Acquires p hs i hs'
      → Acquires p (h ∷ hs) (suc i) (h ∷ hs')
  Acquires-cons h hs hs' i e a = record {
    here = a.here;
    was = a.was;
    first = first;
    others = others;
  }
    where
      first : (j : ℕ) → j < suc i → ¬ IsAvailable (word_at (h ∷ hs) j)
      first zero lt b = ground (arith, e, b)
      first (suc j) lt b = a.first j (omega arith) b

      others : (j : ℕ) → j ≢ suc i → word_at (h ∷ hs') j ≡ word_at (h ∷ hs) j
      others zero ne = refl
      others (suc j) ne = a.others j (λ q. ne (ap suc q))

  Acquires-append :
      (ks hs hs' : List HazardPtr) (i : ℕ)
      → All (λ k. available k ≡ false) ks
      → Acquires p hs i hs'
      → Acquires p (ks ++ hs) (length ks + i) (ks ++ hs')
  Acquires-append [] hs hs' i all a = subst (λ n. Acquires p hs n hs') (omega arith) a
  Acquires-append (k ∷ ks) hs hs' i all a =
      subst (λ n. Acquires p (k ∷ (ks ++ hs)) n (k ∷ (ks ++ hs'))) (omega arith)
        (Acquires-cons k (ks ++ hs) (ks ++ hs') (length ks + i) all.0
          (Acquires-append ks hs hs' i all.1 a))

  word-replicate : (n j : ℕ) → word_at (replicate n) j ≡ not_yet_used
  word-replicate zero j = refl
  word-replicate (suc n) zero = refl
  word-replicate (suc n) (suc j) = word-replicate n j

  -- A node that has no hazard left is as it was.
  data Inserts (node : HazardArrayNode) (rest : List HazardPtr)
      : Option (ℕ × HazardArrayNode) → Type 0 where
    full : All (λ k. available k ≡ false) node → Inserts node rest none
    inserted :
        {i : ℕ} {node' : HazardArrayNode}
        → Acquires p (node ++ rest) i (node' ++ rest)
        → length node' ≡ length node
        → Inserts node rest (some (i, node'))

  try_insert-Inserts :
      (node : HazardArrayNode) (rest : List HazardPtr)
      → Inserts node rest (try_insert_in_node node p)
  unfolding try_insert_in_node
  try_insert-Inserts [] rest = full tt
  try_insert-Inserts (h ∷ node) rest = elim (Bool-cases (available h)) [
    | inl e ↦ rw e (inserted (Acquires-head h (node ++ rest) e) refl)
    | inr e ↦ rw e (behind e (try_insert_in_node node p) (try_insert-Inserts node rest))
  ]
    where
      behind :
          available h ≡ false
          → (o : Option (ℕ × HazardArrayNode)) → Inserts node rest o
          → Inserts (h ∷ node) rest (elim o [ none ↦ none | some r ↦ some (suc r.0, h ∷ r.1) ])
      behind e none (full all) = full (e, all)
      behind e (some r) (inserted a l) =
          inserted (Acquires-cons h (node ++ rest) (r.1 ++ rest) r.0 e a) (ap suc l)

  iter-append-nil : (node : HazardArrayNode) → node ++ [] ≡ node
  iter-append-nil [] = refl
  iter-append-nil (h ∷ node) = ap (◌∷◌ h) (iter-append-nil node)

  -- Acquiring takes the first hazard of all nodes that is free or has never been used, or the first
  -- one of a new node behind them; every other hazard keeps its word.
  pub get_or_insert_unchecked-Acquires :
      (nodes : HazardList)
      → Acquires p
          (iter nodes)
          (get_or_insert_unchecked nodes p).0
          (iter (get_or_insert_unchecked nodes p).1)
  unfolding get_or_insert_unchecked
  get_or_insert_unchecked-Acquires [] = record {
    here = refl;
    was = inr refl;
    first = λ j lt. absurd (omega arith);
    others = fresh;
  }
    where
      fresh : (j : ℕ) → j ≢ 0 → word_at (new_node p ++ []) j ≡ not_yet_used
      fresh zero ne = absurd (ne refl)
      fresh (suc j) ne =
          ap (λ k. word_at k j) (iter-append-nil (replicate 30)) ∙ word-replicate 30 j
  get_or_insert_unchecked-Acquires (node ∷ nodes) =
      go (get_or_insert_unchecked-Acquires nodes) (try_insert_in_node node p) refl
        (try_insert-Inserts node (iter nodes))
    where
      rest : ℕ × HazardList
      rest = get_or_insert_unchecked nodes p

      go :
          Acquires p (iter nodes) rest.0 (iter rest.1)
          → (o : Option (ℕ × HazardArrayNode)) → try_insert_in_node node p ≡ o
          → Inserts node (iter nodes) o
          → Acquires p
              (iter (node ∷ nodes))
              (get_or_insert_unchecked (node ∷ nodes) p).0
              (iter (get_or_insert_unchecked (node ∷ nodes) p).1)
      go a none e (full all) =
          rw (e, get_or_insert_unchecked)
            (Acquires-append node (iter nodes) (iter rest.1) rest.0 all a)
      go b (some r) e (inserted a l) = rw (e, get_or_insert_unchecked) a
