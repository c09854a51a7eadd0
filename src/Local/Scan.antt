-- ===== src/Local/Scan.antt =====
-- What a scan reclaims: src/local.rs, `scan_hazards` and `reclaim_unprotected_records`.
use mathlib.Core.Path.{fun_ext}
use hazptr.Prelude.{
  ℕ, ◌≤◌, ◌<◌, ◌≡◌, ◌⊎◌, inl, inr, refl, ap, ◌∙◌, Bool, not, List, ◌++◌, arith, leb, Bool-cases,
  Returns, >>=-Returns, keep, elem,
}
use hazptr.Std.Vec.{Vec, len}
use hazptr.Std.Sort.{sort_unstable, sort_unstable-Ascending, elem-sort_unstable}
use hazptr.Std.Search.{binary_search_by-elem}
use hazptr.Hazard.{seq_cst, Protected}
use hazptr.Hazard.HazardList.{HazardList}
use hazptr.Global.{collect_protected_hazards}
use hazptr.Global.Collect.{is_protected, collect_protected_hazards-elem}
use hazptr.Local.{State, is_retained, reclaim_unprotected_records, scan_hazards}

module _ {R : Type 0} (address : R → ℕ) where
  abbrev pub is_held : State R → R → Bool
  is_held s r = is_protected (address r) s.global.hazards

  -- The state `t` is `s` after the unprotected records of the bag have been reclaimed, in order.
  pub record Reclaims (s t : State R) : Type 0 where
    pub retained :
        t.local.retired_bag.inner.items ≡ keep (is_held s) s.local.retired_bag.inner.items
    pub reclaimed :
        t.reclaimed ≡ s.reclaimed ++ keep (λ r. not (is_held s r)) s.local.retired_bag.inner.items
    pub shared : t.global ≡ s.global
    pub hazard_cache : t.local.hazard_cache ≡ s.local.hazard_cache
    pub ops_count : t.local.ops_count ≡ s.local.ops_count
    pub config : t.local.config ≡ s.local.config

  -- The scan, as what it does to the records.
  abbrev pub Scans : State R → State R → Type 0
  Scans s t =
      ((len s.local.retired_bag.inner ≤ s.local.config.min_required_records) × (t ≡ s))
      ⊎ ((s.local.config.min_required_records < len s.local.retired_bag.inner) × Reclaims s t)

  is_retained-is_protected :
      (hs : HazardList) (v : List Protected)
      → ((a : ℕ) → elem a v ≡ is_protected a hs)
      → is_retained address (sort_unstable v) ≡ (λ r. is_protected (address r) hs)
  unfolding is_retained
  is_retained-is_protected hs v h = fun_ext λ r.
      binary_search_by-elem (sort_unstable v) (address r) (sort_unstable-Ascending v)
      ∙ elem-sort_unstable (address r) v
      ∙ h (address r)

  reclaim-Reclaims :
      (s : State R) (v : Vec Protected)
      → ((a : ℕ) → elem a v.items ≡ is_protected a s.global.hazards)
      → Reclaims s (
          reclaim_unprotected_records address (record s {
            local = record (s.local) { scan_cache = record v { items = sort_unstable v.items } };
          }))
  unfolding reclaim_unprotected_records
  reclaim-Reclaims s v h =
      let e = is_retained-is_protected s.global.hazards v.items h in
      record {
        retained = ap (λ f. keep f s.local.retired_bag.inner.items) e;
        reclaimed =
            ap (λ f. s.reclaimed ++ keep (λ r. not (f r)) s.local.retired_bag.inner.items) e;
        shared = refl;
        hazard_cache = refl;
        ops_count = refl;
        config = refl;
      }

  -- A scan does not panic. With at most `min_required_records` in the bag it does nothing, also with
  -- exactly that number, which the documentation of the configuration takes to be enough; with more it
  -- keeps, in order, the records whose address is protected, and reclaims all others.
  pub scan_hazards-Scans : (s : State R) → Returns (scan_hazards address s) (Scans s)
  unfolding scan_hazards
  scan_hazards-Scans s =
      elim (Bool-cases (leb (len s.local.retired_bag.inner) s.local.config.min_required_records)) [
        | inl few ↦ rw few (inl (ground arith, refl))
        | inr many ↦ rw many (
            >>=-Returns (λ v. (a : ℕ) → elem a v.items ≡ is_protected a s.global.hazards) (Scans s)
              (collect_protected_hazards s.global s.local.scan_cache seq_cst) _
              (collect_protected_hazards-elem s.global s.local.scan_cache)
              (λ v h. inr (ground arith, reclaim-Reclaims s v h)))
      ]
