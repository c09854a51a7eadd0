-- ===== src/Examples/Rewritten.antt =====
-- The theorems on the rewrite of the crate, at states with two hazards and three retired records.
use hazptr.Prelude.{
  ℕ, ◌==◌, if◌then◌else◌, map, Option, some, zero, suc, ◌≡◌, ◌↔◌, ◌∷◌, [], List, true, not, arith,
  refl, Returns, elem, keep,
}
use hazptr.Std.Vec.{Vec}
use hazptr.Hazard.{seq_cst}
use hazptr.Rewrite.Config
use hazptr.Rewrite.Config.{Config, Operation}
use hazptr.Rewrite.Hazard.{with_protected}
use hazptr.Rewrite.HazardList.{HazardList, iter, collect_protected_hazards}
use hazptr.Rewrite.HazardList.Collect.{
  IsOrdered, IsAddress, Protects, collect_protected_hazards_abort,
}
use hazptr.Std.Linked.{IsList}
use hazptr.Rewrite.Retire.{RetireNode, GlobalRetireState, LocalRetireState}
use hazptr.Rewrite.Retire.Relink.{reclaim_all_unprotected}
use hazptr.Rewrite.Retire.Relink.Refines.{reclaim_all_unprotected-Relinks}
use hazptr.Rewrite.Local.{State, retire}
use hazptr.Rewrite.Local.Records.{Adds, retire-Adds, all_records}
use hazptr.Rewrite.Local.{Global, modify_hazard}
use hazptr.Rewrite.HazardList.Collect.{IsAddress}
use hazptr.Rewrite.Local.Handles.{Use, rc, alive, use_all}
use hazptr.Rewrite.Local.Handles.Owners.{IsOwned, owners, with_retired, use_all-IsOwned}
use hazptr.Examples.Sample.{address}

-- Position 0 protects the record at 100, position 1 is reserved, and no other has been used.
abbrev nodes : HazardList
nodes = (with_protected 100 ∷ with_protected 1 ∷ with_protected 2 ∷ []) ∷ []

nodes-IsOrdered : IsOrdered (iter nodes)
nodes-IsOrdered zero j le e = absurd (omega (arith, e))
nodes-IsOrdered (suc zero) j le e = absurd (omega (arith, e))
nodes-IsOrdered (suc (suc i)) zero le e = absurd (omega (arith, le))
nodes-IsOrdered (suc (suc i)) (suc zero) le e = absurd (omega (arith, le))
nodes-IsOrdered (suc (suc i)) (suc (suc zero)) le e = refl
nodes-IsOrdered (suc (suc i)) (suc (suc (suc j))) le e = refl

abbrev node : RetireNode ℕ
node = record { vec = record { items = 0 ∷ 1 ∷ []; capacity = 128 } }

abbrev left : RetireNode ℕ
left = record { vec = record { items = 2 ∷ []; capacity = 4 } }

-- A thread under the local strategy, one retirement short of the threshold.
abbrev pub state : State ℕ
state = record {
  local = record {
    config = record (hazptr.Rewrite.Config.default) { ops_count_threshold = 2 };
    state = LocalRetireState.local_strategy node;
    ops_count = 1;
    hazard_cache = 1 ∷ [];
    scan_cache = record { items = []; capacity = 0 };
  };
  global = record { retire_state = GlobalRetireState.local_strategy (left ∷ []); hazards = nodes };
  reclaimed = [];
}

abbrev cache : Vec ℕ
cache = record { items = 7 ∷ []; capacity = 64 }

collect_protected_hazards_abort_example :
    Returns
      (collect_protected_hazards nodes cache seq_cst)
      (λ v. (a : ℕ) → IsAddress a → (elem a v.items ≡ true) ↔ Protects (iter nodes) a)
collect_protected_hazards_abort_example =
    collect_protected_hazards_abort nodes cache nodes-IsOrdered

abbrev queue : List ℕ
queue = 0 ∷ 1 ∷ 2 ∷ []

-- The head leads to the records 0, 1 and 2, and the second is protected.
abbrev links : ℕ → ℕ
links zero = 100
links a = if a == 100 then 200 else (if a == 200 then 300 else 0)

abbrev headers : ℕ → Option ℕ
headers a = if a == 100 then some 0 else (if a == 200 then some 1 else some 2)

reclaim_all_unprotected-Relinks_example :
    Returns (reclaim_all_unprotected 3 (200 ∷ []) links headers) (λ m.
      IsList m.next 0 (map address (keep (λ r. elem (address r) (200 ∷ [])) queue))
      × (m.reclaimed ≡ keep (λ r. not (elem (address r) (200 ∷ []))) queue))
reclaim_all_unprotected-Relinks_example =
    reclaim_all_unprotected-Relinks address (200 ∷ []) links headers queue (omega arith, tt)
      (
        refl,
        (λ e. omega (arith, e)),
        (refl, (λ e. omega (arith, e)), (refl, (λ e. omega (arith, e)), refl)),
      )
      (refl, (refl, (refl, tt)))

retire-Adds_example : Returns (retire state 3) (Adds state 3)
retire-Adds_example = retire-Adds state 3 tt

-- A clone retires a record and goes, and then the last handle.
abbrev uses : List (Use ℕ)
uses =
    Use.clone rc ∷ Use.retire rc 3 ∷ Use.try_increase_ops_count Operation.retire ∷ Use.drop rc ∷ []

use_all-IsOwned_example :
    Returns
      (use_all address uses (alive 1 state))
      (IsOwned (owners uses 1) (with_retired uses (all_records state)))
use_all-IsOwned_example =
    use_all-IsOwned address uses 1 (all_records state) (alive 1 state) (refl, tt, λ p. refl)
      (omega arith, (omega arith, (omega arith, (omega arith, tt))))

-- After the scan another thread protects the record 3 with position 1, and a thread abandons it.
abbrev late : Global ℕ → Global ℕ
late g = record {
  retire_state =
      GlobalRetireState.local_strategy
        (record { vec = record { items = 3 ∷ []; capacity = 4 } } ∷ left ∷ []);
  hazards = modify_hazard g.hazards 1 (λ h. with_protected (address 3));
}
