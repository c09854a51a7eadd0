-- ===== src/Local/Drop.antt =====
-- What a thread leaves of its hazards: src/local.rs, `LocalInner::drop`.
use hazptr.Prelude.{
  ℕ, ◌≡◌, inl, inr, refl, ap, ◌∙◌, List, [], ◌∷◌, zero, suc, ◌==◌, if◌then◌else◌, elem, arith,
  modify, Bool-cases, Returns, Returns-weaken, >>=-Returns, is_empty,
}
use hazptr.Hazard.{free, set_free}
use hazptr.Hazard.HazardList.{HazardList}
use hazptr.Global.{abandon_retired_bag}
use hazptr.Local.{State, store, set_all_free, scan_hazards, abandon, drop}
use hazptr.Local.Cache.{word_at}
use hazptr.Local.Keeps.{Keeps, scan_hazards-Keeps}

word_at-free :
    (hs : HazardList) (i j : ℕ)
    → word_at (modify hs i set_free) j ≡ (if i == j then free else word_at hs j)
word_at-free [] i j = ground arith
word_at-free (x ∷ hs) zero zero = refl
word_at-free (x ∷ hs) zero (suc j) = ground arith
word_at-free (x ∷ hs) (suc i) zero = ground arith
word_at-free (x ∷ hs) (suc i) (suc j) = ground (arith, word_at-free hs i j)

word_at-set_all_free :
    (cache : List ℕ) (hs : HazardList) (j : ℕ)
    → word_at (set_all_free cache hs) j ≡ (if elem j cache then free else word_at hs j)
unfolding set_all_free
word_at-set_all_free [] hs j = refl
word_at-set_all_free (i ∷ cache) hs j =
    ground (arith, word_at-set_all_free cache (modify hs i set_free) j, word_at-free hs i j)

module _ {R : Type 0} (address : R → ℕ) where
  abandon-hazards : (s : State R) → Returns (abandon s) (λ e. e.0.hazards ≡ s.global.hazards)
  unfolding abandon abandon_retired_bag
  abandon-hazards s = elim (Bool-cases (is_empty s.local.retired_bag.inner.items)) [
    | inl none_left ↦ rw none_left refl
    | inr some_left ↦ rw some_left refl
  ]

  -- When a thread ends, the hazards of its cache are free, and all others are as they were.
  pub drop-word :
      (s : State R)
      → Returns (drop address s) (λ e.
        (j : ℕ)
        → word_at e.0.hazards j
          ≡ (if elem j s.local.hazard_cache then free else word_at s.global.hazards j))
  unfolding drop
  drop-word s =
      >>=-Returns (Keeps released) _ (scan_hazards address released) abandon
        (scan_hazards-Keeps address released)
        (λ t k.
          Returns-weaken _ _ (abandon t)
            (λ e same j.
              ap (λ hs. word_at hs j) (same ∙ k.hazards)
              ∙ word_at-set_all_free s.local.hazard_cache s.global.hazards j)
            (abandon-hazards t))
    where
      released : State R
      released = store s (set_all_free s.local.hazard_cache s.global.hazards)
