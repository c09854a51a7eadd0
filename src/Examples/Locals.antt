-- ===== src/Examples/Locals.antt =====
-- The theorems on a thread's state, at the sample state.
use hazptr.Prelude.{
  ℕ, zero, suc, ◌≢◌, ◌++◌, ok, ◌≡◌, ◌↔◌, ◌∷◌, [], arith, none, some, true, false, Returns, elem,
  SameItems,
}
use hazptr.Hazard.{seq_cst}
use hazptr.Local
use hazptr.Hazard.HazardList
use hazptr.Hazard.HazardList.{get_hazard-Acquired, Acquired, requested}
use hazptr.Config.{ConfigBuilder}
use hazptr.Global.{collect_protected_hazards}
use hazptr.Global.Collect.{collect_protected_hazards-Protects, Protects, IsAddress}
use hazptr.Local.{
  scan_hazards, increase_ops_count, retire_record, drop, try_recycle_hazard, hazard_cache_capacity,
  recycled, capacity, State,
}
use hazptr.Local.Scan.{scan_hazards-Scans, Scans}
use hazptr.Local.Safety.{scan_hazards-IsSafe, IsSafe}
use hazptr.Local.Records.{retire_record-SameItems, drop-SameItems, all_records, shared_records}
use hazptr.Local.Count.{increase_ops_count-Counts, Counts, retire_all, retire_all-Flushed, Flushed}
use hazptr.Local.Cache.{get_hazard-IsOwned, IsOwned, word_at}
use hazptr.Local.Access.{default_access, default_access-IsLawful, IsLawful}
use hazptr.Local.Handover.{handover, handover-SameItems}
use hazptr.Local.RoundTrip.{recycle_all, get_all, Restored, recycle_all-Restored}
use hazptr.Retired.{null}
use hazptr.Hazard.{free}
use hazptr.Examples.Sample.{
  hazards, global, state, local, address, address-IsAddress, local-IsCounting, state-IsOwned,
}

scan_hazards-Scans_example : Returns (scan_hazards address state) (Scans address state)
scan_hazards-Scans_example = scan_hazards-Scans address state

scan_hazards-IsSafe_example : Returns (scan_hazards address state) (IsSafe address state)
scan_hazards-IsSafe_example = scan_hazards-IsSafe address address-IsAddress state

retire_record-SameItems_example :
    Returns
      (retire_record address false state 3)
      (λ t. SameItems (all_records t) (3 ∷ all_records state))
retire_record-SameItems_example = retire_record-SameItems address false state 3

drop-SameItems_example :
    Returns (drop address state) (λ e. SameItems (shared_records e.0 e.1) (all_records state))
drop-SameItems_example = drop-SameItems address state

increase_ops_count-Counts_example :
    Returns (increase_ops_count address state) (Counts address state)
increase_ops_count-Counts_example = increase_ops_count-Counts address state local-IsCounting

retire_all-Flushed_example :
    Returns (retire_all address state (3 ∷ 4 ∷ 5 ∷ [])) (Flushed address state (3 ∷ 4 ∷ 5 ∷ []))
retire_all-Flushed_example = retire_all-Flushed address state (3 ∷ 4 ∷ 5 ∷ []) local-IsCounting

get_hazard-IsOwned_example : Returns (Local.get_hazard state none) (λ r. IsOwned (r.0 ∷ 0 ∷ []) r.1)
get_hazard-IsOwned_example = get_hazard-IsOwned (0 ∷ []) state none (λ e. omega arith) state-IsOwned

default_access-IsLawful_example : IsLawful (default_access address true)
default_access-IsLawful_example = default_access-IsLawful address

handover-SameItems_example : Returns (handover address none state) (λ t.
    SameItems (t.local.retired_bag.inner.items ++ t.reclaimed) (all_records state)
    × (t.global.abandoned.head ≡ null))
handover-SameItems_example = handover-SameItems address none state tt

in_use : (i : ℕ) → elem i (0 ∷ []) ≡ true → word_at hazards i ≢ free
in_use zero h e = omega (arith, e)
in_use (suc i) h e = ground (arith, h)

recycle_all-Restored_example :
    (t : State ℕ) × (recycle_all (0 ∷ []) state ≡ ok t)
    × Returns (get_all 1 (some 300) t) (Restored (0 ∷ []) state)
recycle_all-Restored_example = recycle_all-Restored (0 ∷ []) state (some 300) (omega arith) in_use

get_hazard-Acquired_example :
    Returns (HazardList.get_hazard hazards (some 300)) (Acquired 300 hazards)
get_hazard-Acquired_example = get_hazard-Acquired hazards (some 300) (λ e. omega arith)

collect_protected_hazards-Protects_example :
    Returns
      (collect_protected_hazards global local.scan_cache seq_cst)
      (λ v. (a : ℕ) → IsAddress a → (elem a v.items ≡ true) ↔ Protects hazards a)
collect_protected_hazards-Protects_example =
    collect_protected_hazards-Protects global local.scan_cache

abbrev builder : ConfigBuilder
builder = record { init_cache = none; min_required_records = some 8; scan_threshold = some 64 }
