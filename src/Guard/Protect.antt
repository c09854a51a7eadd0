-- ===== src/Guard/Protect.antt =====
-- What a guard protects: src/guard.rs, `protect`.
use hazptr.Prelude.{
  ℕ, zero, suc, ◌≡◌, ◌≢◌, refl, ap, sym, subst, ◌∙◌, inl, inr, Option, none, some, List, [], ◌∷◌,
  ◌++◌, arith, ◌==◌, if◌then◌else◌, ==_refl, Bool-cases, returns, Returns, Returns-weaken, modify,
}
use hazptr.Hazard.{Hazard, free, thread_reserved, seq_cst, set_thread_reserved}
use hazptr.Hazard.HazardList.{HazardList}
use hazptr.Local.Cache.{word, word_at, word_at-modify}
use hazptr.Guard.{Pointers, Marked, null, value, store_protected, release, protect_loop, protect}

abbrev pub protecting : HazardList → ℕ → ℕ → HazardList
protecting hs i p = modify hs i (λ (h : Hazard). record h { protected = p })

pub store_protected-protecting :
    (hs : HazardList) (i p : ℕ) → store_protected hs i p seq_cst ≡ returns (protecting hs i p)
unfolding store_protected
store_protected-protecting [] i p = refl
store_protected-protecting (x ∷ hs) zero p = refl
store_protected-protecting (x ∷ hs) (suc i) p = rw (store_protected-protecting hs i p)

-- `after` is `before` but for the word at one position, which is `w` now.
pub record Rewritten (hazard w : ℕ) (before after : HazardList) : Type 0 where
  pub here : word_at after hazard ≡ w
  pub others : (j : ℕ) → j ≢ hazard → word_at after j ≡ word_at before j

module _ (hazard : ℕ) (base hs : HazardList) (w : ℕ) where
  pub rewrite :
      (f : Hazard → Hazard) (v : ℕ)
      → ((h : Hazard) → (f h).protected ≡ v)
      → w ≢ free
      → Rewritten hazard w base hs
      → Rewritten hazard v base (modify hs hazard f)
  rewrite f v fv held r = record {
    here = now hazard ∙ rw (==_refl hazard) (fv _);
    others = λ j ne. now j ∙ ground (arith, r.others j ne, ne);
  }
    where
      now :
          (j : ℕ)
          → word_at (modify hs hazard f) j ≡ (
              if hazard == j
              then word (some (f (record { protected = word_at hs hazard })))
              else word_at hs j)
      now j = word_at-modify hs f hazard j (λ e. held (sym r.here ∙ e))

module _ (P : Pointers) (hazard : ℕ) where
  open P use {MarkedPtr, MarkedNonNull, marked, decompose, decompose-IsAddress}

  abbrev pub PointsTo : MarkedPtr → ℕ → Type 0
  PointsTo raw p = (v : MarkedNonNull) × (marked raw ≡ value v) × (decompose v ≡ p)

  -- Each load gives a pointer, and another one than the load before, which gave `p`.
  abbrev pub Moving : ℕ → List MarkedPtr → Type 0
  Moving p [] = Unit {0}
  Moving p (raw ∷ loads) =
      (v : MarkedNonNull) × (marked raw ≡ value v) × (p ≢ decompose v) × Moving (decompose v) loads

  abbrev pub Unsettled : List MarkedPtr → Type 0
  Unsettled [] = Unit {0}
  Unsettled (raw ∷ loads) =
      (v : MarkedNonNull) × (marked raw ≡ value v) × Moving (decompose v) loads

  abbrev pub Loads : List MarkedPtr → ℕ → Type 0
  Loads loads tag =
      (before : List MarkedPtr) × (raw : MarkedPtr) × (after : List MarkedPtr) × (loads
        ≡ before ++ raw ∷ after)
      × (marked raw ≡ null tag)

  -- Two loads in a row gave the pointer of `v`, the second one `v` itself.
  abbrev pub Revalidated : List MarkedPtr → MarkedNonNull → Type 0
  Revalidated loads v =
      (before : List MarkedPtr) × (raw : MarkedPtr) × (raw' : MarkedPtr) × (after : List MarkedPtr)
      × (loads ≡ before ++ (raw ∷ raw' ∷ after))
      × PointsTo raw (decompose v)
      × (marked raw' ≡ value v)

  abbrev pub Protects :
      HazardList → List MarkedPtr → Option (Marked MarkedNonNull × HazardList) → Type 0
  Protects hs loads none = Unsettled loads
  Protects hs loads (some (null tag, hs')) =
      Rewritten hazard thread_reserved hs hs' × Loads loads tag
  Protects hs loads (some (value v, hs')) =
      Rewritten hazard (decompose v) hs hs' × Revalidated loads v

  -- The same for the loop, behind a load `first` of `p`.
  abbrev LoopProtects :
      HazardList
      → MarkedPtr
      → ℕ
      → List MarkedPtr
      → Option (Marked MarkedNonNull × HazardList)
      → Type 0
  LoopProtects hs first p loads none = Moving p loads
  LoopProtects hs first p loads (some (null tag, hs')) =
      Rewritten hazard thread_reserved hs hs' × Loads loads tag
  LoopProtects hs first p loads (some (value v, hs')) =
      Rewritten hazard (decompose v) hs hs' × Revalidated (first ∷ loads) v

  extend :
      (base : HazardList) (first raw : MarkedPtr) (p : ℕ) (loads : List MarkedPtr)
      (v : MarkedNonNull)
      → marked raw ≡ value v
      → p ≢ decompose v
      → (o : Option (Marked MarkedNonNull × HazardList))
      → LoopProtects base raw (decompose v) loads o
      → LoopProtects base first p (raw ∷ loads) o
  extend base first raw p loads v e ne none moving = (v, e, ne, moving)
  extend base first raw p loads v e ne (some (null tag, hs')) (w, l) =
      (w, (raw ∷ l.0, l.1, l.2, ap (◌∷◌ raw) l.3, l.4))
  extend base first raw p loads v e ne (some (value u, hs')) (w, l) =
      (w, (first ∷ l.0, l.1, l.2, l.3, ap (◌∷◌ first) l.4, l.5, l.6))

  protect_loop-LoopProtects :
      (base hs : HazardList) (first : MarkedPtr) (p : ℕ) (loads : List MarkedPtr)
      → PointsTo first p
      → p ≢ free
      → Rewritten hazard p base hs
      → Returns (protect_loop P hazard p loads hs) (LoopProtects base first p loads)
  unfolding protect_loop release
  protect_loop-LoopProtects base hs first p [] from held r = tt
  protect_loop-LoopProtects base hs first p (raw ∷ loads) from held r = go (marked raw) refl λ v e.
      protect_loop-LoopProtects base (protecting hs hazard (decompose v)) raw (decompose v) loads
        (v, e, refl) (decompose-IsAddress v).0
        (rewrite hazard base hs p _ (decompose v) (λ h. refl) held r)
    where
      go :
          (m : Marked MarkedNonNull)
          → marked raw ≡ m
          → ((v : MarkedNonNull)
              → marked raw ≡ value v
              → Returns
                  (protect_loop P hazard (decompose v) loads (protecting hs hazard (decompose v)))
                  (LoopProtects base raw (decompose v) loads))
          → Returns
              (protect_loop P hazard p (raw ∷ loads) hs)
              (LoopProtects base first p (raw ∷ loads))
      go (null tag) e ih =
          rw (e, protect_loop)
            (
              rewrite hazard base hs p set_thread_reserved thread_reserved (λ h. refl) held r,
              ([], raw, loads, refl, e),
            )
      go (value v) e ih = elim (Bool-cases (p == decompose v)) [
        | inl same ↦
            let q : p ≡ decompose v = ground (arith, same) in
            rw (e, protect_loop, same)
              (
                subst (λ w. Rewritten hazard w base hs) q r,
                ([], first, raw, loads, refl, subst (PointsTo first) q from, e),
              )
        | inr other ↦
            let ne : p ≢ decompose v = λ q. ground (arith, other, q) in
            rw (e, protect_loop, other, store_protected-protecting hs hazard (decompose v))
              (Returns-weaken _ _
                (protect_loop P hazard (decompose v) loads (protecting hs hazard (decompose v)))
                (extend base first raw p loads v e ne) (ih v e))
      ]

  promote :
      (hs : HazardList) (raw : MarkedPtr) (loads : List MarkedPtr) (v : MarkedNonNull)
      → marked raw ≡ value v
      → (o : Option (Marked MarkedNonNull × HazardList)) → LoopProtects hs raw (decompose v) loads o
      → Protects hs (raw ∷ loads) o
  promote hs raw loads v e none moving = (v, e, moving)
  promote hs raw loads v e (some (null tag, hs')) (w, l) =
      (w, (raw ∷ l.0, l.1, l.2, ap (◌∷◌ raw) l.3, l.4))
  promote hs raw loads v e (some (value u, hs')) l = l

  -- `protect` with a hazard that is held does not panic. Where it returns a value, the hazard holds
  -- the value's pointer, and the value was loaded again after a load of that same pointer; where it
  -- returns null, null was loaded and the hazard is reserved; no other hazard changes. It goes on
  -- only as long as no load gives null and no two loads in a row give the same pointer.
  pub protect-Protects :
      (loads : List MarkedPtr) (hs : HazardList)
      → word_at hs hazard ≢ free
      → Returns (protect P hazard loads hs) (Protects hs loads)
  unfolding protect release
  protect-Protects [] hs held = tt
  protect-Protects (raw ∷ loads) hs held = go (marked raw) refl
    where
      same : Rewritten hazard (word_at hs hazard) hs hs
      same = record { here = refl; others = λ j ne. refl }

      go :
          (m : Marked MarkedNonNull)
          → marked raw ≡ m
          → Returns (protect P hazard (raw ∷ loads) hs) (Protects hs (raw ∷ loads))
      go (null tag) e =
          rw (e, protect)
            (
              rewrite hazard hs hs _ set_thread_reserved thread_reserved (λ h. refl) held same,
              ([], raw, loads, refl, e),
            )
      go (value v) e =
          rw (e, protect, store_protected-protecting hs hazard (decompose v))
            (Returns-weaken _ _
              (protect_loop P hazard (decompose v) loads (protecting hs hazard (decompose v)))
              (promote hs raw loads v e)
              (protect_loop-LoopProtects hs (protecting hs hazard (decompose v)) raw (decompose v)
                loads (v, e, refl) (decompose-IsAddress v).0
                (rewrite hazard hs hs _ _ (decompose v) (λ h. refl) held same)))
