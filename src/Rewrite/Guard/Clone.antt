-- ===== src/Rewrite/Guard/Clone.antt =====
-- What a cloned guard protects: hazptr_rewrite/src/guard.rs, `clone` and `clone_from`.
use hazptr.Prelude.{
  ℕ, zero, suc, ◌≡◌, ◌≢◌, ◌⊎◌, inl, inr, sym, ap, subst, ◌∙◌, Option, none, some, arith, Returns,
  Returns-weaken, get_elem?, Option-cases,
}
use hazptr.Rewrite.Hazard.{
  HazardPtr, thread_reserved, not_yet_used, ProtectStrategy, get_protected, as_option, classify,
}
use hazptr.Rewrite.HazardList.Collect.{IsAddress}
use hazptr.Rewrite.HazardList.Acquire.{word_at, IsAvailable}
use hazptr.Rewrite.Local.{State, get_hazard}
use hazptr.Rewrite.Local.Access.{words, IsParked, Gives, get_hazard-Gives, set_protected-word}
use hazptr.Rewrite.Guard.{protected_at, clone, clone_from}

classify_word : (w p : ℕ) → as_option (classify w) ≡ some p → (w ≡ p) × IsAddress p
classify_word zero p e = absurd (cc)
classify_word (suc zero) p e = absurd (cc)
classify_word (suc (suc zero)) p e = absurd (cc)
classify_word (suc (suc (suc n))) p e = ground (arith, e)

-- `protected_at`, from what the position has.
abbrev as_result : Option HazardPtr → Option ℕ
as_result none = none
as_result (some h) = as_option (get_protected h)

module _ {R : Type 0} where
  pub protected_at_word :
      (s : State R) (i p : ℕ) → protected_at s i ≡ some p → (word_at (words s) i ≡ p) × IsAddress p
  protected_at_word s i p e = elim (Option-cases (get_elem? (words s) i)) [
    | inl none_there ↦ absurd (ground (arith, none_there, e))
    | inr (h, there) ↦
        rw there (classify_word h.protected p (subst (λ o. as_result o ≡ some p) there e))
  ]

  -- A clone of a guard that protects an address has another hazard, which protects the same
  -- address, whether it comes from the thread's cache or from the list; the guard keeps protecting
  -- it too, and all other hazards are as they were.
  pub clone-Protects :
      (s : State R) (hazard p : ℕ)
      → IsParked s
      → protected_at s hazard ≡ some p
      → Returns (clone s hazard) (λ r.
        (r.0 ≢ hazard)
        × (word_at (words r.1) r.0 ≡ p)
        × (word_at (words r.1) hazard ≡ p)
        × ((j : ℕ) → j ≢ r.0 → word_at (words r.1) j ≡ word_at (words s) j))
  unfolding clone
  clone-Protects s hazard p parked e =
      rw (e, clone)
        (Returns-weaken _ _ (get_hazard s (ProtectStrategy.protect p)) (λ r g. given r g)
          (get_hazard-Gives s (ProtectStrategy.protect p) parked))
    where
      old : (word_at (words s) hazard ≡ p) × IsAddress p
      old = protected_at_word s hazard p e

      apart :
          (i : ℕ)
          → IsAvailable (word_at (words s) i) ⊎ (word_at (words s) i ≡ thread_reserved)
          → i ≢ hazard
      apart i was q =
          let w : word_at (words s) i ≡ p = ap (λ k. word_at (words s) k) q ∙ old.0 in
          ground (arith, was, w, old.1)

      given :
          (r : ℕ × State R)
          → Gives s p r.0 r.1
          → (r.0 ≢ hazard)
            × (word_at (words r.1) r.0 ≡ p)
            × (word_at (words r.1) hazard ≡ p)
            × ((j : ℕ) → j ≢ r.0 → word_at (words r.1) j ≡ word_at (words s) j)
      given r g = (
        apart r.0 g.was,
        g.here,
        g.others hazard (λ q. apart r.0 g.was (sym q)) ∙ old.0,
        g.others,
      )

  -- `clone_from` of a guard that protects an address makes the guard's own hazard protect it.
  pub clone_from-Protects :
      (s : State R) (hazard source p : ℕ)
      → word_at (words s) hazard ≢ not_yet_used
      → protected_at s source ≡ some p
      → Returns (clone_from s hazard source) (λ t.
        (word_at (words t) hazard ≡ p)
        × ((j : ℕ) → j ≢ hazard → word_at (words t) j ≡ word_at (words s) j))
  unfolding clone_from
  clone_from-Protects s hazard source p held e =
      rw (e, clone_from) (set_protected-word s hazard p held)
