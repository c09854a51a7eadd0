-- ===== src/Rewrite/Local/Handles/Owners.antt =====
-- A `Local` lives as long as a handle owns it, and then hands on its records: hazptr_rewrite/src/local/mod.rs.
use hazptr.Prelude.{
  ℕ, zero, suc, ◌<◌, ◌≡◌, ◌∙◌, false, List, [], ◌∷◌, ◌++◌, ◌==◌, arith, Returns, >>=-Returns,
  SameItems,
}
use hazptr.Rewrite.Local
use hazptr.Rewrite.Local.{Global, State}
use hazptr.Rewrite.Local.Records.{IsFit, Adds, retire-Adds, all_records, global_records}
use hazptr.Rewrite.Local.Reclaim.{try_increase_ops_count-Preserves, drop-SameRecords}
use hazptr.Rewrite.Local.Handles.{
  Ref, rc, reference, raw, SharedLocal, alive, gone, Use, clone, drop, retire,
  try_increase_ops_count, clone_handle, drop_handle, retire_by, count, use_handle, use_all,
}

-- How many handles own the `Local` after one of them has been dropped.
abbrev pub less : Ref → ℕ → ℕ
less rc zero = zero
less rc (suc n) = n
less reference n = n
less raw n = n

module _ {R : Type 0} where
  -- How many handles own the `Local` after a use of one of them.
  abbrev pub owners_after : Use R → ℕ → ℕ
  owners_after (clone rc) n = suc n
  owners_after (clone reference) n = n
  owners_after (clone raw) n = n
  owners_after (drop handle) n = less handle n
  owners_after (retire handle r) n = less handle n
  owners_after (try_increase_ops_count op) n = n

  abbrev pub owners : List (Use R) → ℕ → ℕ
  owners [] n = n
  owners (u ∷ us) n = owners us (owners_after u n)

  -- No handle is used after the last one that owns the `Local`.
  abbrev pub IsUsable : List (Use R) → ℕ → Type 0
  IsUsable [] n = Unit {0}
  IsUsable (u ∷ us) n = (0 < n) × IsUsable us (owners_after u n)

  abbrev pub retired_by : Use R → List R
  retired_by (clone handle) = []
  retired_by (drop handle) = []
  retired_by (retire handle r) = r ∷ []
  retired_by (try_increase_ops_count op) = []

  -- The records, with those that are retired by the uses.
  abbrev pub with_retired : List (Use R) → List R → List R
  with_retired [] l = l
  with_retired (u ∷ us) l = with_retired us (retired_by u ++ l)

  -- A `Local` that `n` handles own is alive exactly if there is one, and no record of it is lost.
  abbrev pub IsOwned : ℕ → List R → SharedLocal R → Type 0
  IsOwned zero l (alive strong s) = ⊥
  IsOwned zero l (gone g reclaimed) = SameItems (global_records g.retire_state ++ reclaimed) l
  IsOwned (suc n) l (alive strong s) = (strong ≡ suc n) × IsFit s × SameItems (all_records s) l
  IsOwned (suc n) l (gone g reclaimed) = ⊥

module _ {R : Type 0} (address : R → ℕ) where
  drop_handle-IsOwned :
      (handle : Ref) (n : ℕ) (l : List R) (local : SharedLocal R)
      → IsOwned (suc n) l local
      → Returns (drop_handle address handle local) (IsOwned (less handle (suc n)) l)
  unfolding drop_handle
  drop_handle-IsOwned rc zero l (alive strong s) (e, fit, same) = rw e (
      >>=-Returns (λ r. SameItems (global_records r.0.retire_state ++ r.1) (all_records s)) _
        (hazptr.Rewrite.Local.drop address s) _ (drop-SameRecords address s fit)
        (λ r k p. k p ∙ same p))
  drop_handle-IsOwned rc (suc n) l (alive strong s) (e, fit, same) =
      let more : (strong == 1) ≡ false = ground (arith, e) in rw more (omega (arith, e), fit, same)
  drop_handle-IsOwned rc n l (gone g log) h = absurd h
  drop_handle-IsOwned reference n l local h = h
  drop_handle-IsOwned raw n l local h = h

  use_handle-IsOwned :
      (u : Use R) (n : ℕ) (l : List R) (local : SharedLocal R)
      → 0 < n
      → IsOwned n l local
      → Returns (use_handle address u local) (IsOwned (owners_after u n) (retired_by u ++ l))
  unfolding use_handle clone_handle retire_by count
  use_handle-IsOwned u zero l local lt h = absurd (omega (arith, lt))
  use_handle-IsOwned (clone rc) (suc n) l (alive strong s) lt (e, fit, same) =
      (omega (arith, e), fit, same)
  use_handle-IsOwned (clone reference) (suc n) l local lt h = h
  use_handle-IsOwned (clone raw) (suc n) l local lt h = h
  use_handle-IsOwned (drop handle) (suc n) l local lt h = drop_handle-IsOwned handle n l local h
  use_handle-IsOwned (retire handle r) (suc n) l (alive strong s) lt (e, fit, same) =
      >>=-Returns (Adds s r) _ (hazptr.Rewrite.Local.retire s r) _ (retire-Adds s r fit) (λ t a.
        drop_handle-IsOwned handle n (r ∷ l) (alive strong t)
          (e, a.fit, λ p. ground (arith, a.records p, same p)))
  use_handle-IsOwned (try_increase_ops_count op) (suc n) l (alive strong s) lt (e, fit, same) =
      >>=-Returns (λ t. IsFit t × SameItems (all_records t) (all_records s)) _
        (hazptr.Rewrite.Local.try_increase_ops_count address s op) _
        (try_increase_ops_count-Preserves address s op fit) (λ t k. (e, k.0, λ p. k.1 p ∙ same p))
  use_handle-IsOwned (clone rc) (suc n) l (gone g log) lt h = elim h [ ]
  use_handle-IsOwned (retire handle r) (suc n) l (gone g log) lt h = elim h [ ]
  use_handle-IsOwned (try_increase_ops_count op) (suc n) l (gone g log) lt h = elim h [ ]

  -- Handles that are used in any order, none of them after the last one that owns the `Local`, are used
  -- without a panic. The `Local` is dropped exactly with the last of its owners, and with it no
  -- record is lost: those that it had and those that were retired are its records, or afterwards the ones
  -- handed on and the reclaimed ones, each as often.
  pub use_all-IsOwned :
      (us : List (Use R)) (n : ℕ) (l : List R) (local : SharedLocal R)
      → IsOwned n l local
      → IsUsable us n
      → Returns (use_all address us local) (IsOwned (owners us n) (with_retired us l))
  unfolding use_all
  use_all-IsOwned [] n l local h ok = h
  use_all-IsOwned (u ∷ us) n l local h (lt, ok) =
      >>=-Returns (IsOwned (owners_after u n) (retired_by u ++ l)) _ (use_handle address u local) _
        (use_handle-IsOwned u n l local lt h)
        (λ t k. use_all-IsOwned us (owners_after u n) (retired_by u ++ l) t k ok)
