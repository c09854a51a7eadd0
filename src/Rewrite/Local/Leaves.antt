-- ===== src/Rewrite/Local/Leaves.antt =====
-- Counting and reclaiming leave the hazards and the hazard cache alone:
-- hazptr_rewrite/src/local/inner.rs.
use hazptr.Prelude.{
  ℕ, ◌+◌, ◌%◌, ◌^◌, ◌≡◌, refl, inl, inr, true, false, Bool, ◌==◌, if◌then◌else◌, Bool-cases,
  returns, Returns, >>=-Returns, Returns-weaken, [],
}
use hazptr.Rewrite.Config.{Operation, same_operation}
use hazptr.Rewrite.HazardList.{collect_protected_hazards, collect_loop, iter}
use hazptr.Rewrite.Local.{
  State, has_retired_records, reclaim_in, reclaim_all_unprotected, try_reclaim, undisturbed,
  try_increase_ops_count,
}
use hazptr.Rewrite.Local.Records.{IsFit}
use hazptr.Rewrite.Local.Reclaim.{reclaim_in-Matched, has_retired_records-Returns}

pub record Leaves {R : Type 0} (s t : State R) : Type 0 where
  pub fit : IsFit t
  pub hazards : t.global.hazards ≡ s.global.hazards
  pub cache : t.local.hazard_cache ≡ s.local.hazard_cache

module _ {R : Type 0} (address : R → ℕ) where
  reclaim_all_unprotected-Leaves :
      (s : State R) → IsFit s → Returns (reclaim_all_unprotected address s) (Leaves s)
  unfolding reclaim_all_unprotected
  reclaim_all_unprotected-Leaves s h =
      >>=-Returns _ _ (reclaim_in address s.local.state s.global.retire_state s.local.scan_cache) _
        (reclaim_in-Matched address s.local.state s.global.retire_state s.local.scan_cache h)
        (λ e k. record { fit = k.0; hazards = refl; cache = refl })

  try_reclaim-Leaves :
      (s : State R) → IsFit s → Returns (try_reclaim address undisturbed s) (Leaves s)
  unfolding try_reclaim collect_protected_hazards
  try_reclaim-Leaves s h =
      >>=-Returns (λ b. Unit {0}) _ (has_retired_records s.local.state s.global.retire_state) _
        (has_retired_records-Returns address s.local.state s.global.retire_state h) (λ b u. go b)
    where
      scanned : State R
      scanned = record s {
        local = record (s.local) {
          scan_cache =
              collect_loop (record (s.local.scan_cache) { items = [] }) (iter s.global.hazards);
        };
      }

      go :
          (b : Bool)
          → Returns (if b then reclaim_all_unprotected address scanned else returns s) (Leaves s)
      go true =
          Returns-weaken _ _ (reclaim_all_unprotected address scanned)
            (λ t k. record { fit = k.fit; hazards = k.hazards; cache = k.cache })
            (reclaim_all_unprotected-Leaves scanned h)
      go false = record { fit = h; hazards = refl; cache = refl }

  pub try_increase_ops_count-Leaves :
      (s : State R) (op : Operation)
      → IsFit s
      → Returns (try_increase_ops_count address s op) (Leaves s)
  unfolding try_increase_ops_count
  try_increase_ops_count-Leaves s op h =
      elim (Bool-cases (same_operation op s.local.config.count_strategy)) [
        | inl e ↦
            elim (Bool-cases
              ((s.local.ops_count + 1) % 2 ^ 32 == s.local.config.ops_count_threshold)) [
                | inl due ↦
                    rw (e, due)
                      (Returns-weaken _ _ (try_reclaim address undisturbed _)
                        (λ t k. record { fit = k.fit; hazards = k.hazards; cache = k.cache })
                        (try_reclaim-Leaves _ h))
                | inr early ↦ rw (e, early) (record { fit = h; hazards = refl; cache = refl })
              ]
        | inr e ↦ rw e (record { fit = h; hazards = refl; cache = refl })
      ]
