-- ===== src/Guard/IfEqual.antt =====
-- What a guard protects if a pointer is the expected one: src/guard.rs, `protect_if_equal`.
use hazptr.Prelude.{ℕ, ◌≡◌, ◌≢◌, inl, inr, refl, true, false, Bool-cases, Returns, Result, ok, err}
use hazptr.Hazard.{free, thread_reserved, set_thread_reserved}
use hazptr.Hazard.HazardList.{HazardList}
use hazptr.Local.Cache.{word_at}
use hazptr.Guard.{
  Pointers, Marked, null, value, NotEqualError, not_equal, release, protect_if_equal,
}
use hazptr.Guard.Protect.{protecting, store_protected-protecting, Rewritten, rewrite}

module _ (P : Pointers) (hazard : ℕ) where
  open P use {
    MarkedPtr, MarkedNonNull, marked, decompose, eq, eq_non_null, decompose-IsAddress, marked_of_eq,
  }

  module _ (expected first second third : MarkedPtr) (hs : HazardList) where
    -- The outcome, by the loads that lead to it.
    pub data IfEqual : Result NotEqualError (Marked MarkedNonNull) × HazardList → Type 0 where
      differs : eq first expected ≡ false → IfEqual (err not_equal, hs)
      was_null :
          {tag : ℕ} {hs' : HazardList}
          → eq first expected ≡ true
          → marked second ≡ null tag
          → Rewritten hazard thread_reserved hs hs'
          → IfEqual (ok (null tag), hs')
      changed :
          {v : MarkedNonNull} {hs' : HazardList}
          → eq first expected ≡ true
          → marked second ≡ value v
          → eq_non_null third v ≡ false
          → Rewritten hazard thread_reserved hs hs'
          → IfEqual (err not_equal, hs')
      kept :
          {v : MarkedNonNull} {hs' : HazardList}
          → eq first expected ≡ true
          → marked second ≡ value v
          → marked third ≡ value v
          → Rewritten hazard (decompose v) hs hs'
          → IfEqual (ok (value v), hs')

    same : Rewritten hazard (word_at hs hazard) hs hs
    same = record { here = refl; others = λ j ne. refl }

    -- `protect_if_equal` with a hazard that is held does not panic. A first load other than
    -- `expected` is refused and changes nothing; a value is returned only if the second and the
    -- third load gave it, and the hazard holds its pointer then; on a null, and on a third load that
    -- differs, the hazard is reserved. No other hazard changes.
    pub protect_if_equal-IfEqual :
        word_at hs hazard ≢ free
        → Returns (protect_if_equal P hazard expected first second third hs) IfEqual
    unfolding protect_if_equal release
    protect_if_equal-IfEqual held = elim (Bool-cases (eq first expected)) [
      | inl equal ↦ go (marked second) refl equal
      | inr unequal ↦ rw unequal (differs unequal)
    ]
      where
        go :
            (m : Marked MarkedNonNull)
            → marked second ≡ m
            → eq first expected ≡ true
            → Returns (protect_if_equal P hazard expected first second third hs) IfEqual
        go (null tag) e equal =
            rw (equal, e, protect_if_equal)
              (was_null equal e
                (rewrite hazard hs hs _ set_thread_reserved thread_reserved (λ h. refl) held same))
        go (value v) e equal = elim (Bool-cases (eq_non_null third v)) [
          | inl again ↦
              rw
                (
                  equal,
                  e,
                  protect_if_equal,
                  store_protected-protecting hs hazard (decompose v),
                  again,
                )
                (kept equal e (marked_of_eq third v again)
                  (rewrite hazard hs hs _ _ (decompose v) (λ h. refl) held same))
          | inr other ↦
              rw
                (
                  equal,
                  e,
                  protect_if_equal,
                  store_protected-protecting hs hazard (decompose v),
                  other,
                )
                (changed equal e other (
                  rewrite hazard hs (protecting hs hazard (decompose v)) (decompose v)
                    set_thread_reserved thread_reserved (λ h. refl) (decompose-IsAddress v).0
                    (rewrite hazard hs hs _ _ (decompose v) (λ h. refl) held same)))
        ]
