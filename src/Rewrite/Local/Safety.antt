-- ===== src/Rewrite/Local/Safety.antt =====
-- What a reclamation under the local strategy keeps and reclaims: hazptr_rewrite/src/local/inner.rs,
-- `try_reclaim`.
use hazptr.Prelude.{ℕ, ◌≡◌, SameItems, List, [], ◌++◌, All}
use hazptr.Std.Vec.{Vec}
use hazptr.Rewrite.HazardList.Collect.{Protects}
use hazptr.Rewrite.Retire.{LocalRetireState}
use hazptr.Rewrite.Local.{State, Global}
use hazptr.Rewrite.Local.Records.{local_records, global_records}
use hazptr.Rewrite.Local.Access.{words}

-- The thread keeps its own retired records.
abbrev pub IsLocal : {R : Type 0} → LocalRetireState R → Type 0
IsLocal LocalRetireState.global_strategy = ⊥
IsLocal (LocalRetireState.local_strategy node) = Unit {0}

module _ {R : Type 0} (address : R → ℕ) (others : Global R → Global R) where
  -- The step from `s` to `t` deals with the thread's own records and with all that are abandoned by the
  -- time it adopts them; it keeps those, and only those, that the hazards of `s` protect.
  pub record Reclaims (s t : State R) : Type 0 where
    pub freed : List R
    pub logged : t.reclaimed ≡ s.reclaimed ++ freed
    pub records :
        SameItems
          (local_records t.local.state ++ freed)
          (local_records s.local.state ++ global_records (others s.global).retire_state)
    pub protected : All (λ r. Protects (words s) (address r)) (local_records t.local.state)
    pub unprotected : All (λ r. ¬ Protects (words s) (address r)) freed
    pub adopted : global_records t.global.retire_state ≡ []
    pub hazards : t.global.hazards ≡ (others s.global).hazards
