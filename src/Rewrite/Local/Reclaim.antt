-- ===== src/Rewrite/Local/Reclaim.antt =====
-- Reclaiming neither loses nor doubles a record: hazptr_rewrite/src/local/inner.rs, `try_reclaim`,
-- `try_increase_ops_count` and `drop`.
use hazptr.Prelude.{
  ℕ, ◌+◌, ◌%◌, ◌^◌, ◌≡◌, refl, ap, inl, inr, Bool, true, false, [], ◌++◌, arith, ◌==◌,
  if◌then◌else◌, Bool-cases, returns, Returns, >>=-Returns, count_p, count_p-append, count_p-keep,
  SameItems,
}
use hazptr.Std.Vec.{Vec}
use hazptr.Std.Sort.{sort_unstable}
use hazptr.Rewrite.Config.{Operation, same_operation}
use hazptr.Rewrite.HazardList.{collect_protected_hazards, collect_loop, iter}
use hazptr.Rewrite.Retire.{
  GlobalRetireState, LocalRetireState, take_all_and_merge, node_reclaim_all_unprotected,
  is_retained,
}
use hazptr.Rewrite.Retire.Merge.{
  node_records, taken_records, take_all_and_merge-SameItems, queue_reclaim_all_unprotected-keep,
}
use hazptr.Rewrite.Local.{
  State, store, set_all_free, adopt, abandon, has_retired_records, reclaim_in,
  reclaim_all_unprotected, try_reclaim, undisturbed, try_increase_ops_count, drop,
}
use hazptr.Rewrite.Local.Records.{
  IsMatched, IsFit, local_records, global_records, all_records, count_p-all_records,
  adopt-SameItems, abandon-SameItems,
}

module _ {R : Type 0} (address : R → ℕ) where
  pub reclaim_in-Matched :
      (l : LocalRetireState R) (g : GlobalRetireState R) (scan : Vec ℕ)
      → IsMatched l g
      → Returns (reclaim_in address l g scan) (λ e.
        IsMatched e.0 e.1
        × ((p : R → Bool)
            → count_p p (local_records e.0) + count_p p (global_records e.1) + count_p p e.3
              ≡ count_p p (local_records l) + count_p p (global_records g)))
  unfolding reclaim_in node_reclaim_all_unprotected
  reclaim_in-Matched LocalRetireState.global_strategy (GlobalRetireState.global_strategy queue) scan
        h =
      rw (queue_reclaim_all_unprotected-keep address scan.items queue)
        (tt, λ p. omega (arith, count_p-keep p (is_retained address scan.items) queue))
  reclaim_in-Matched LocalRetireState.global_strategy (GlobalRetireState.local_strategy a) scan h =
      absurd h
  reclaim_in-Matched (LocalRetireState.local_strategy node) (GlobalRetireState.global_strategy q)
        scan h =
      absurd h
  reclaim_in-Matched (LocalRetireState.local_strategy node) (GlobalRetireState.local_strategy a)
        scan h =
      (
        tt,
        λ p. omega (
          arith,
          count_p-keep p (is_retained address (sort_unstable scan.items))
              (adopt node (take_all_and_merge a).0).vec.items,
          adopt-SameItems node (take_all_and_merge a).0 p,
          count_p-append p node.vec.items (taken_records (take_all_and_merge a).0),
          (take_all_and_merge-SameItems a).0 p,
          ap (λ q. count_p p (node_records q)) (take_all_and_merge-SameItems a).1,
        ),
      )

  abbrev Preserves : State R → State R → Type 0
  Preserves s t = IsFit t × SameItems (all_records t) (all_records s)

  reclaim_all_unprotected-Preserves :
      (s : State R) → IsFit s → Returns (reclaim_all_unprotected address s) (Preserves s)
  unfolding reclaim_all_unprotected
  reclaim_all_unprotected-Preserves s h =
      >>=-Returns _ _ (reclaim_in address s.local.state s.global.retire_state s.local.scan_cache) _
        (reclaim_in-Matched s.local.state s.global.retire_state s.local.scan_cache h)
        (λ e k. (
          k.0,
          λ p. omega (
            arith,
            k.1 p,
            count_p-all_records p s,
            count_p-append p (local_records e.0) (global_records e.1 ++ (s.reclaimed ++ e.3)),
            count_p-append p (global_records e.1) (s.reclaimed ++ e.3),
            count_p-append p s.reclaimed e.3,
          ),
        ))

  pub has_retired_records-Returns :
      (l : LocalRetireState R) (g : GlobalRetireState R)
      → IsMatched l g
      → Returns (has_retired_records l g) (λ b. Unit {0})
  unfolding has_retired_records
  has_retired_records-Returns LocalRetireState.global_strategy (GlobalRetireState.global_strategy q)
        h =
      tt
  has_retired_records-Returns LocalRetireState.global_strategy (GlobalRetireState.local_strategy a)
        h =
      h
  has_retired_records-Returns (LocalRetireState.local_strategy node) g h = tt

  try_reclaim-Preserves :
      (s : State R) → IsFit s → Returns (try_reclaim address undisturbed s) (Preserves s)
  unfolding try_reclaim collect_protected_hazards
  try_reclaim-Preserves s h =
      >>=-Returns (λ b. Unit {0}) _ (has_retired_records s.local.state s.global.retire_state) _
        (has_retired_records-Returns s.local.state s.global.retire_state h) (λ b u. go b)
    where
      scanned : State R
      scanned = record s {
        local = record (s.local) {
          scan_cache =
              collect_loop (record (s.local.scan_cache) { items = [] }) (iter s.global.hazards);
        };
      }

      go :
          (b : Bool)
          → Returns (if b then reclaim_all_unprotected address scanned else returns s) (Preserves s)
      go true = reclaim_all_unprotected-Preserves scanned h
      go false = (h, λ p. refl)

  -- Counting an operation does not panic where the strategies are the same, and neither loses nor
  -- doubles a record, also when the count reaches the threshold and records are reclaimed.
  pub try_increase_ops_count-Preserves :
      (s : State R) (op : Operation)
      → IsFit s
      → Returns
          (try_increase_ops_count address s op)
          (λ t. IsFit t × SameItems (all_records t) (all_records s))
  unfolding try_increase_ops_count
  try_increase_ops_count-Preserves s op h =
      elim (Bool-cases (same_operation op s.local.config.count_strategy)) [
        | inl e ↦
            elim (Bool-cases
              ((s.local.ops_count + 1) % 2 ^ 32 == s.local.config.ops_count_threshold)) [
                | inl due ↦ rw (e, due) (try_reclaim-Preserves _ h)
                | inr early ↦ rw (e, early) (h, λ p. refl)
              ]
        | inr e ↦ rw e (h, λ p. refl)
      ]

  -- When a thread ends, each record of it has been reclaimed or is in the global state.
  pub drop-SameRecords :
      (s : State R)
      → IsFit s
      → Returns
          (drop address s)
          (λ e. SameItems (global_records e.0.retire_state ++ e.1) (all_records s))
  unfolding drop
  drop-SameRecords s h =
      >>=-Returns (Preserves released) _ (try_reclaim address undisturbed released) _
        (try_reclaim-Preserves released h)
        (λ t k.
          >>=-Returns _ _ (abandon t.local.state t.global.retire_state) _
            (abandon-SameItems t.local.state t.global.retire_state k.0)
            (λ g m p. omega (
              arith,
              m p,
              k.1 p,
              count_p-all_records p t,
              count_p-append p (local_records t.local.state) (global_records t.global.retire_state),
              count_p-append p (global_records g) t.reclaimed,
            )))
    where
      released : State R
      released = store s (set_all_free s.local.hazard_cache s.global.hazards)
