-- ===== src/Local/Keeps.antt =====
-- Scans, flushes and counts leave the hazards and the hazard cache alone: src/local.rs.
use hazptr.Prelude.{
  ℕ, ◌+◌, ◌%◌, ◌^◌, ◌≡◌, inl, inr, refl, ap, ◌==◌, Bool-cases, Returns, Returns-weaken,
}
use hazptr.Global.{Global}
use hazptr.Local.{State, scan_hazards, flushed, try_flush, increase_ops_count}
use hazptr.Local.Scan.{Scans, scan_hazards-Scans}

pub record Keeps {R : Type 0} (s t : State R) : Type 0 where
  pub hazards : t.global.hazards ≡ s.global.hazards
  pub cache : t.local.hazard_cache ≡ s.local.hazard_cache

module _ {R : Type 0} (address : R → ℕ) where
  Scans-Keeps : (s t : State R) → Scans address s t → Keeps s t
  Scans-Keeps s t (inl (few, e)) = record {
    hazards = ap (λ (u : State R). u.global.hazards) e;
    cache = ap (λ (u : State R). u.local.hazard_cache) e;
  }
  Scans-Keeps s t (inr (many, r)) = record {
    hazards = ap (λ (g : Global R). g.hazards) r.shared;
    cache = r.hazard_cache;
  }

  pub scan_hazards-Keeps : (s : State R) → Returns (scan_hazards address s) (Keeps s)
  scan_hazards-Keeps s =
      Returns-weaken _ _ (scan_hazards address s) (Scans-Keeps s) (scan_hazards-Scans address s)

  pub try_flush-Keeps : (s : State R) → Returns (try_flush address s) (Keeps s)
  unfolding try_flush flushed
  try_flush-Keeps s =
      Returns-weaken _ _ (try_flush address s)
        (λ t k. record { hazards = k.hazards; cache = k.cache }) (scan_hazards-Keeps (flushed s))

  pub increase_ops_count-Keeps : (s : State R) → Returns (increase_ops_count address s) (Keeps s)
  unfolding increase_ops_count
  increase_ops_count-Keeps s =
      elim (Bool-cases ((s.local.ops_count + 1) % 2 ^ 32 == s.local.config.scan_threshold)) [
        | inl due ↦ rw due (
            Returns-weaken _ _ (try_flush address _)
              (λ t k. record { hazards = k.hazards; cache = k.cache }) (try_flush-Keeps _))
        | inr early ↦ rw early (record { hazards = refl; cache = refl })
      ]
