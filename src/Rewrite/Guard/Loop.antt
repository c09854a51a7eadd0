-- ===== src/Rewrite/Guard/Loop.antt =====
-- The loop of hazptr_rewrite/src/guard.rs, `protect`: a guard protects a pointer only after it has
-- loaded it again.
use hazptr.Prelude.{
  ℕ, ◌≡◌, ◌≢◌, inl, inr, refl, subst, Option, none, some, List, [], ◌∷◌, ◌==◌, arith, Bool-cases,
  returns, Returns, >>=-Returns, Returns-weaken,
}
use hazptr.Hazard.{seq_cst}
use hazptr.Rewrite.Hazard.{thread_reserved, not_yet_used}
use hazptr.Rewrite.HazardList.Acquire.{word_at}
use hazptr.Rewrite.Local.{State, set_protected}
use hazptr.Rewrite.Local.Records.{IsFit}
use hazptr.Rewrite.Local.Access.{words}
use hazptr.Rewrite.Guard.{MaybeNull, null, not_null, Pointers, release, protect_loop, protect}
use hazptr.Rewrite.Guard.Protect.{
  Rewritten, unchanged, set_protected-Rewritten, release-Rewritten, address_used,
}

module _ (P : Pointers) {R : Type 0} (address : R → ℕ) (hazard : ℕ) where
  open P use {MarkedPtr, MarkedNonNull, maybe_null, decompose}

  -- Two loads in a row gave the same pointer, the second one in the value `v`.
  pub data Revalidated (v : MarkedNonNull) : List MarkedPtr → Type 0 where
    here :
        {first second : MarkedPtr} {u : MarkedNonNull} {loads : List MarkedPtr}
        → maybe_null first ≡ not_null u
        → maybe_null second ≡ not_null v
        → decompose u ≡ decompose v
        → Revalidated v (first ∷ second ∷ loads)
    there :
        {first : MarkedPtr} {loads : List MarkedPtr}
        → Revalidated v loads
        → Revalidated v (first ∷ loads)

  -- Each load gives a pointer, and another one than the load before, which gave `p`.
  abbrev pub Moving : ℕ → List MarkedPtr → Type 0
  Moving p [] = Unit {0}
  Moving p (raw ∷ loads) =
      (v : MarkedNonNull) × (maybe_null raw ≡ not_null v)
      × (p ≢ decompose v)
      × Moving (decompose v) loads

  -- The outcome of the loop, after a load `first` that gave `p`.
  pub data Loops (base : State R) (first : MarkedPtr) (p : ℕ) (loads : List MarkedPtr)
      : Option (MaybeNull MarkedNonNull × State R) → Type 0 where
    goes_on : Moving p loads → Loops base first p loads none
    was_null :
        {tag : ℕ} {t : State R}
        → Rewritten hazard base thread_reserved t
        → Loops base first p loads (some (null tag, t))
    protects :
        {v : MarkedNonNull} {t : State R}
        → Revalidated v (first ∷ loads)
        → Rewritten hazard base (decompose v) t
        → Loops base first p loads (some (not_null v, t))

  extend :
      (base : State R) (first raw : MarkedPtr) (p : ℕ) (loads : List MarkedPtr) (v : MarkedNonNull)
      → maybe_null raw ≡ not_null v
      → p ≢ decompose v
      → (o : Option (MaybeNull MarkedNonNull × State R)) → Loops base raw (decompose v) loads o
      → Loops base first p (raw ∷ loads) o
  extend base first raw p loads v e ne none (goes_on moving) = goes_on (v, e, ne, moving)
  extend base first raw p loads v e ne (some (null tag, t)) (was_null r) = was_null r
  extend base first raw p loads v e ne (some (not_null w, t)) (protects h r) = protects (there h) r

  protect_loop-Loops :
      (base s : State R) (first : MarkedPtr) (u : MarkedNonNull) (loads : List MarkedPtr)
      → maybe_null first ≡ not_null u
      → Rewritten hazard base (decompose u) s
      → Returns
          (protect_loop P address hazard (decompose u) loads s)
          (Loops base first (decompose u) loads)
  unfolding protect_loop
  protect_loop-Loops base s first u [] from r = goes_on tt
  protect_loop-Loops base s first u (raw ∷ loads) from r =
      go (maybe_null raw) refl (λ t v e k. protect_loop-Loops base t raw v loads e k)
    where
      go :
          (m : MaybeNull MarkedNonNull)
          → maybe_null raw ≡ m
          → ((t : State R) (v : MarkedNonNull)
              → maybe_null raw ≡ not_null v
              → Rewritten hazard base (decompose v) t
              → Returns
                  (protect_loop P address hazard (decompose v) loads t)
                  (Loops base raw (decompose v) loads))
          → Returns
              (protect_loop P address hazard (decompose u) (raw ∷ loads) s)
              (Loops base first (decompose u) (raw ∷ loads))
      go (null tag) e ih =
          rw (e, protect_loop)
            (>>=-Returns _ (Loops base first (decompose u) (raw ∷ loads)) (release address hazard s)
              (λ t. returns (some (null tag, t)))
              (release-Rewritten address hazard base s _ (address_used P address hazard u) r)
              (λ t k. was_null k))
      go (not_null v) e ih = elim (Bool-cases (decompose u == decompose v)) [
        | inl same ↦
            rw (e, protect_loop, same)
              (protects (here from e (ground (arith, same)))
                (subst (λ w. Rewritten hazard base w s) (ground (arith, same)) r))
        | inr other ↦
            rw (e, protect_loop, other)
              (>>=-Returns (Rewritten hazard base (decompose v))
                (Loops base first (decompose u) (raw ∷ loads))
                (set_protected s hazard (decompose v) seq_cst)
                (λ t. protect_loop P address hazard (decompose v) loads t)
                (set_protected-Rewritten address hazard base s _ (decompose v)
                  (address_used P address hazard u) r)
                (λ t k.
                  Returns-weaken _ _ (protect_loop P address hazard (decompose v) loads t)
                    (extend base first raw (decompose u) loads v e (λ q. ground (arith, other, q)))
                    (ih t v e k)))
      ]

  -- The outcome of `protect`: it goes on as long as each load gives another pointer than the one
  -- before.
  pub data Outcomes (base : State R)
      : List MarkedPtr → Option (MaybeNull MarkedNonNull × State R) → Type 0 where
    no_load : Outcomes base [] none
    first_null :
        {raw : MarkedPtr} {loads : List MarkedPtr} {tag : ℕ} {t : State R}
        → maybe_null raw ≡ null tag
        → Rewritten hazard base thread_reserved t
        → Outcomes base (raw ∷ loads) (some (null tag, t))
    looped :
        {raw : MarkedPtr} {loads : List MarkedPtr} {v : MarkedNonNull}
        {o : Option (MaybeNull MarkedNonNull × State R)}
        → maybe_null raw ≡ not_null v
        → Loops base raw (decompose v) loads o
        → Outcomes base (raw ∷ loads) o

  -- `protect` with a hazard that has been used does not panic. It returns a value only after two
  -- loads in a row that gave the value's pointer, with the pointer in the hazard; where it returns
  -- null, the hazard is reserved. It goes on only as long as no load gives null and no two loads in a row give
  -- the same pointer. No other hazard changes.
  pub protect-Outcomes :
      (loads : List MarkedPtr) (s : State R)
      → word_at (words s) hazard ≢ not_yet_used
      → IsFit s
      → Returns (protect P address hazard loads s) (Outcomes s loads)
  unfolding protect
  protect-Outcomes [] s used fit = no_load
  protect-Outcomes (raw ∷ loads) s used fit = go (maybe_null raw) refl
    where
      go :
          (m : MaybeNull MarkedNonNull)
          → maybe_null raw ≡ m
          → Returns (protect P address hazard (raw ∷ loads) s) (Outcomes s (raw ∷ loads))
      go (null tag) e =
          rw (e, protect)
            (>>=-Returns _ (Outcomes s (raw ∷ loads)) (release address hazard s)
              (λ t. returns (some (null tag, t)))
              (release-Rewritten address hazard s s _ used (unchanged address hazard s fit))
              (λ t k. first_null e k))
      go (not_null v) e =
          rw (e, protect)
            (>>=-Returns (Rewritten hazard s (decompose v)) (Outcomes s (raw ∷ loads))
              (set_protected s hazard (decompose v) seq_cst)
              (λ t. protect_loop P address hazard (decompose v) loads t)
              (set_protected-Rewritten address hazard s s _ (decompose v) used
                (unchanged address hazard s fit))
              (λ t k.
                Returns-weaken _ _ (protect_loop P address hazard (decompose v) loads t)
                  (λ o l. looped e l) (protect_loop-Loops s t raw v loads e k)))
