-- ===== src/Rewrite/Local/Access.antt =====
-- What a thread's hazard holds once it is acquired: hazptr_rewrite/src/local/inner.rs, `get_hazard`.
use hazptr.Prelude.{
  ℕ, zero, suc, ◌-◌, ◌<◌, ◌≤◌, ◌≡◌, ◌≢◌, ◌⊎◌, inl, inr, refl, sym, ap, ◌∙◌, List, [], ◌∷◌, ◌++◌,
  ltb, arith, Bool-cases, returns, Returns, >>=-Returns, length, modify, All,
}
use hazptr.Hazard.{seq_cst}
use hazptr.Rewrite.Hazard.{
  HazardPtr, thread_reserved, not_yet_used, with_protected, ProtectStrategy, reserve_only, protect,
}
use hazptr.Rewrite.HazardList.{HazardList, iter, requested, get_or_insert_unchecked}
use hazptr.Rewrite.HazardList.Acquire.{word_at, IsAvailable, get_or_insert_unchecked-Acquires}
use hazptr.Rewrite.Local.{
  State, modify_hazard, take_cached, protect_cached, set_protected, get_hazard, store,
}

modify-append_lt :
    (xs ys : List HazardPtr) (i : ℕ) (f : HazardPtr → HazardPtr)
    → i < length xs
    → modify (xs ++ ys) i f ≡ modify xs i f ++ ys
modify-append_lt [] ys i f h = absurd (omega arith)
modify-append_lt (x ∷ xs) ys zero f h = refl
modify-append_lt (x ∷ xs) ys (suc i) f h = ap (◌∷◌ x) (modify-append_lt xs ys i f (omega arith))

modify-append_ge :
    (xs ys : List HazardPtr) (i : ℕ) (f : HazardPtr → HazardPtr)
    → length xs ≤ i
    → modify (xs ++ ys) i f ≡ xs ++ modify ys (i - length xs) f
modify-append_ge [] ys i f h = ap (λ n. modify ys n f) (omega arith)
modify-append_ge (x ∷ xs) ys zero f h = absurd (omega arith)
modify-append_ge (x ∷ xs) ys (suc i) f h =
    ap (◌∷◌ x)
      (modify-append_ge xs ys i f (omega arith) ∙ ap (λ n. xs ++ modify ys n f) (omega arith))

-- A store to a hazard of a node is a store to the hazard at that position of all nodes.
pub iter-modify_hazard :
    (nodes : HazardList) (i : ℕ) (f : HazardPtr → HazardPtr)
    → iter (modify_hazard nodes i f) ≡ modify (iter nodes) i f
unfolding modify_hazard
iter-modify_hazard [] i f = refl
iter-modify_hazard (node ∷ nodes) i f = elim (Bool-cases (ltb i (length node))) [
  | inl e ↦ rw e (sym (modify-append_lt node (iter nodes) i f (ground (arith, e))))
  | inr e ↦ rw e (
      ap (λ hs. node ++ hs) (iter-modify_hazard nodes (i - length node) f)
      ∙ sym (modify-append_ge node (iter nodes) i f (ground (arith, e))))
]

pub word_at-modify :
    (hs : List HazardPtr) (i w : ℕ)
    → word_at hs i ≢ not_yet_used
    → (word_at (modify hs i (λ _. with_protected w)) i ≡ w)
      × ((j : ℕ) → j ≢ i → word_at (modify hs i (λ _. with_protected w)) j ≡ word_at hs j)
word_at-modify [] i w h = absurd (h refl)
word_at-modify (x ∷ hs) zero w h = (refl, others)
  where
    others : (j : ℕ) → j ≢ 0 → word_at (with_protected w ∷ hs) j ≡ word_at (x ∷ hs) j
    others zero ne = absurd (ne refl)
    others (suc j) ne = refl
word_at-modify (x ∷ hs) (suc i) w h =
    ((word_at-modify hs i w h).0, others (word_at-modify hs i w h).1)
  where
    others :
        ((j : ℕ) → j ≢ i → word_at (modify hs i (λ _. with_protected w)) j ≡ word_at hs j)
        → (j : ℕ) → j ≢ suc i
        → word_at (x ∷ modify hs i (λ _. with_protected w)) j ≡ word_at (x ∷ hs) j
    others ih zero ne = refl
    others ih (suc j) ne = ih j (λ e. ne (ap suc e))

abbrev pub words : {R : Type 0} → State R → List HazardPtr
words s = iter s.global.hazards

-- `i` is a hazard that nobody else has, its word is `w` now, and no other hazard has changed.
pub record Gives {R : Type 0} (s : State R) (w i : ℕ) (t : State R) : Type 0 where
  pub here : word_at (words t) i ≡ w
  pub was : IsAvailable (word_at (words s) i) ⊎ (word_at (words s) i ≡ thread_reserved)
  pub others : (j : ℕ) → j ≢ i → word_at (words t) j ≡ word_at (words s) j

module _ {R : Type 0} where
  -- The hazards of the thread's cache are reserved.
  abbrev pub IsParked : State R → Type 0
  IsParked s = All (λ i. word_at (words s) i ≡ thread_reserved) s.local.hazard_cache

  pub set_protected-word :
      (s : State R) (i p : ℕ)
      → word_at (words s) i ≢ not_yet_used
      → Returns (set_protected s i p seq_cst) (λ t.
        (word_at (words t) i ≡ p) × ((j : ℕ) → j ≢ i → word_at (words t) j ≡ word_at (words s) j))
  unfolding set_protected
  set_protected-word s i p h =
      rw (iter-modify_hazard s.global.hazards i (λ _. with_protected p))
        (word_at-modify (words s) i p h)

  -- A hazard from the list or from the cache is one that nobody else has, and holds what the strategy
  -- says: the reservation, or the pointer to protect. No other hazard changes.
  pub get_hazard-Gives :
      (s : State R) (strategy : ProtectStrategy)
      → IsParked s
      → Returns (get_hazard s strategy) (λ r. Gives s (requested strategy) r.0 r.1)
  unfolding get_hazard take_cached protect_cached
  get_hazard-Gives s strategy parked = take strategy s.local.hazard_cache parked
    where
      listed :
          (p : ℕ)
          → Gives s p
              (get_or_insert_unchecked s.global.hazards p).0
              (store s (get_or_insert_unchecked s.global.hazards p).1)
      listed p =
          let a = get_or_insert_unchecked-Acquires p s.global.hazards in
          record { here = a.here; was = inl a.was; others = a.others }

      take :
          (strategy : ProtectStrategy) (cache : List ℕ)
          → All (λ i. word_at (words s) i ≡ thread_reserved) cache
          → Returns (take_cached cache s strategy) (λ r. Gives s (requested strategy) r.0 r.1)
      take reserve_only [] all = listed thread_reserved
      take (protect p) [] all = listed p
      take reserve_only (i ∷ cache) all = record {
        here = all.0;
        was = inr all.0;
        others = λ j ne. refl;
      }
      take (protect p) (i ∷ cache) all =
          >>=-Returns _ (λ (r : ℕ × State R). Gives s p r.0 r.1) (set_protected popped i p seq_cst)
            (λ t. returns (i, t)) (set_protected-word popped i p (λ e. omega (arith, all.0, e)))
            (λ t k. given t k)
        where
          given :
              (t : State R)
              → (word_at (words t) i ≡ p)
                × ((j : ℕ) → j ≢ i → word_at (words t) j ≡ word_at (words s) j)
              → Gives s p i t
          given t k = record { here = k.0; was = inr all.0; others = k.1 }

          popped : State R
          popped = record s { local = record (s.local) { hazard_cache = cache } }
