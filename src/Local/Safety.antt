-- ===== src/Local/Safety.antt =====
-- A scan reclaims no protected record and keeps no other: src/local.rs, `scan_hazards`.
use mathlib.Core.List.{append-nil}
use hazptr.Prelude.{
  ℕ, ◌<◌, ◌≡◌, inl, inr, sym, ap, ◌∙◌, true, not, List, [], ◌++◌, arith, Returns, Returns-weaken,
  All, All-keep, keep, subst,
}
use hazptr.Std.Vec.{len}
use hazptr.Global.Collect.{IsAddress, Protects, is_protected_iff}
use hazptr.Local.{State, scan_hazards}
use hazptr.Local.Scan.{is_held, Scans, scan_hazards-Scans}

module _ {R : Type 0} (address : R → ℕ) where
  -- The records that the step from `s` to `t` reclaims.
  pub record IsSafe (s t : State R) : Type 0 where
    pub freed : List R
    pub logged : t.reclaimed ≡ s.reclaimed ++ freed
    pub unprotected : All (λ r. ¬ Protects s.global.hazards (address r)) freed
    pub protected :
        s.local.config.min_required_records < len s.local.retired_bag.inner
        → All (λ r. Protects s.global.hazards (address r)) t.local.retired_bag.inner.items

  module _ (valid : (r : R) → IsAddress (address r)) where
    Scans-IsSafe : (s t : State R) → Scans address s t → IsSafe s t
    Scans-IsSafe s t (inl (few, e)) = record {
      freed = [];
      logged = ap (λ (u : State R). u.reclaimed) e ∙ sym (append-nil s.reclaimed);
      unprotected = tt;
      protected = λ many. absurd (omega arith);
    }
    Scans-IsSafe s t (inr (many, r)) = record {
      freed = keep (λ x. not (is_held address s x)) s.local.retired_bag.inner.items;
      logged = r.reclaimed;
      unprotected = All-keep _ _ (λ x e p. clash x e p) s.local.retired_bag.inner.items;
      protected = λ _. subst (All _) (sym r.retained) (
          All-keep _ (is_held address s) (λ x e. (is_protected_iff _ _ (valid x)).0 e)
            s.local.retired_bag.inner.items);
    }
      where
        clash :
            (x : R) → not (is_held address s x) ≡ true → Protects s.global.hazards (address x) → ⊥
        clash x e p =
            ground (arith, e, (is_protected_iff (address x) s.global.hazards (valid x)).1 p)

    -- A scan reclaims only records that no hazard of the list protects; and unless the bag has too
    -- few records for a scan, those that it keeps are all protected.
    pub scan_hazards-IsSafe : (s : State R) → Returns (scan_hazards address s) (IsSafe s)
    scan_hazards-IsSafe s =
        Returns-weaken _ _ (scan_hazards address s) (Scans-IsSafe s) (scan_hazards-Scans address s)
