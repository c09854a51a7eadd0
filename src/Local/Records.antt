-- ===== src/Local/Records.antt =====
-- No retired record is lost, and none is reclaimed twice or while protected: src/local.rs.
use hazptr.Prelude.{
  ℕ, ◌+◌, ◌≡◌, inl, inr, refl, ap, ◌∙◌, Bool, true, false, not, Option, none, some, List, [], ◌∷◌,
  ◌++◌, arith, ◌==◌, ◌%◌, ◌^◌, Bool-cases, Returns, >>=-Returns, Returns-weaken, keep, SameItems,
  count_p, count_p-append, count_p-keep, is_empty,
}
use hazptr.Retired
use hazptr.Retired.{RetiredBag, take_and_merge}
use hazptr.Retired.Merge.{records, taken, merge-SameItems, take_and_merge-SameItems, records-push}
use hazptr.Global.{Global, abandon_retired_bag}
use hazptr.Local.{
  State, adopt, abandon, scan_hazards, flushed, try_flush, increase_ops_count, stash, retire_record,
  drop, set_all_free, store,
}
use hazptr.Local.Scan.{is_held, Scans, scan_hazards-Scans}

-- The records that have been retired: in the global state and the log.
abbrev pub shared_records : {R : Type 0} → Global R → List R → List R
shared_records g reclaimed = records g.abandoned.head ++ reclaimed

abbrev pub all_records : {R : Type 0} → State R → List R
all_records s = s.local.retired_bag.inner.items ++ shared_records s.global s.reclaimed

module _ {R : Type 0} where
  count_p-all_records :
      (p : R → Bool) (s : State R)
      → count_p p (all_records s)
        ≡ count_p p s.local.retired_bag.inner.items
          + count_p p (records s.global.abandoned.head)
          + count_p p s.reclaimed
  count_p-all_records p s = omega (
    arith,
    count_p-append p s.local.retired_bag.inner.items (shared_records s.global s.reclaimed),
    count_p-append p (records s.global.abandoned.head) s.reclaimed,
  )

  adopt-SameItems :
      (bag : RetiredBag R) (o : Option (RetiredBag R))
      → SameItems (adopt bag o).inner.items (bag.inner.items ++ taken o)
  unfolding adopt
  adopt-SameItems bag none p = omega (arith, count_p-append p bag.inner.items [])
  adopt-SameItems bag (some b) p = merge-SameItems bag.inner b.inner p

  flushed-SameItems : (s : State R) → SameItems (all_records (flushed s)) (all_records s)
  unfolding flushed take_and_merge
  flushed-SameItems s p = omega (
    arith,
    count_p-all_records p s,
    count_p-all_records p (flushed s),
    adopt-SameItems s.local.retired_bag (take_and_merge s.global.abandoned).0 p,
    count_p-append p s.local.retired_bag.inner.items (taken (take_and_merge s.global.abandoned).0),
    (take_and_merge-SameItems s.global.abandoned).0 p,
  )

  stash-SameItems : (s : State R) (r : R) → SameItems (all_records (stash s r)) (r ∷ all_records s)
  stash-SameItems s r p = ground (
    arith,
    count_p-all_records p s,
    count_p-all_records p (stash s r),
    count_p-append p s.local.retired_bag.inner.items (r ∷ []),
  )

  abandon-SameItems :
      (s : State R) → Returns (abandon s) (λ e. SameItems (shared_records e.0 e.1) (all_records s))
  unfolding abandon abandon_retired_bag
  abandon-SameItems s = elim (Bool-cases (is_empty s.local.retired_bag.inner.items)) [
    | inl none_left ↦ rw none_left (λ p. ground (arith, none_left))
    | inr some_left ↦ rw some_left (λ p. omega (
      arith,
      count_p-all_records p s,
      ap (count_p p) (records-push s.global.abandoned s.local.retired_bag),
      count_p-append p s.local.retired_bag.inner.items (records s.global.abandoned.head),
      count_p-append p (records (Retired.push s.global.abandoned s.local.retired_bag).head)
          s.reclaimed,
    ))
  ]

module _ {R : Type 0} (address : R → ℕ) where
  Scans-SameItems : (s t : State R) → Scans address s t → SameItems (all_records t) (all_records s)
  Scans-SameItems s t (inl (few, e)) p = ap (λ u. count_p p (all_records u)) e
  Scans-SameItems s t (inr (many, r)) p = omega (
    arith,
    count_p-all_records p s,
    count_p-all_records p t,
    ap (count_p p) r.retained,
    ap (count_p p) r.reclaimed,
    ap (λ (g : Global R). count_p p (records g.abandoned.head)) r.shared,
    count_p-append p s.reclaimed
        (keep (λ x. not (is_held address s x)) s.local.retired_bag.inner.items),
    count_p-keep p (is_held address s) s.local.retired_bag.inner.items,
  )

  scan_hazards-SameItems :
      (s : State R)
      → Returns (scan_hazards address s) (λ t. SameItems (all_records t) (all_records s))
  scan_hazards-SameItems s =
      Returns-weaken (Scans address s) _ (scan_hazards address s) (Scans-SameItems s)
        (scan_hazards-Scans address s)

  try_flush-SameItems :
      (s : State R) → Returns (try_flush address s) (λ t. SameItems (all_records t) (all_records s))
  unfolding try_flush
  try_flush-SameItems s =
      Returns-weaken _ _ (try_flush address s) (λ t e p. e p ∙ flushed-SameItems s p)
        (scan_hazards-SameItems (flushed s))

  increase_ops_count-SameItems :
      (s : State R)
      → Returns (increase_ops_count address s) (λ t. SameItems (all_records t) (all_records s))
  unfolding increase_ops_count
  increase_ops_count-SameItems s =
      elim (Bool-cases ((s.local.ops_count + 1) % 2 ^ 32 == s.local.config.scan_threshold)) [
        | inl due ↦ rw due (try_flush-SameItems _)
        | inr early ↦ rw early (λ p. refl)
      ]

  -- Retiring a record does not panic, and adds exactly that record to those that the thread, the
  -- abandoned bags and the log hold together; a scan or a flush on the way moves records between
  -- the three and neither loses nor doubles one.
  pub retire_record-SameItems :
      (count_release : Bool) (s : State R) (r : R)
      → Returns
          (retire_record address count_release s r)
          (λ t. SameItems (all_records t) (r ∷ all_records s))
  unfolding retire_record
  retire_record-SameItems true s r = stash-SameItems s r
  retire_record-SameItems false s r =
      Returns-weaken _ _ (increase_ops_count address (stash s r))
        (λ t e p. e p ∙ stash-SameItems s r p) (increase_ops_count-SameItems (stash s r))

  -- When a thread ends, each record of its bag has been reclaimed or is left in the abandoned bags.
  pub drop-SameItems :
      (s : State R)
      → Returns (drop address s) (λ e. SameItems (shared_records e.0 e.1) (all_records s))
  unfolding drop
  drop-SameItems s =
      >>=-Returns _ _ (scan_hazards address released) abandon (scan_hazards-SameItems released)
        (λ t e. Returns-weaken _ _ (abandon t) (λ end h p. h p ∙ e p) (abandon-SameItems t))
    where
      released : State R
      released = store s (set_all_free s.local.hazard_cache s.global.hazards)
