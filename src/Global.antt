-- ===== src/Global.antt =====
-- src/global.rs: the hazard list and the abandoned bags that all threads share.
pub mod Collect
use hazptr.Prelude.{
  ℕ, Bool, Option, none, some, List, [], ◌∷◌, if◌then◌else◌, Outcome, returns, panics, ◌>>=◌,
  is_empty,
}
use hazptr.Std.Vec.{Vec, push}
use hazptr.Hazard.{AtomicOrdering, is_seq_cst, Hazard, Protected, get_protected}
use hazptr.Hazard.HazardList
use hazptr.Hazard.HazardList.{HazardList}
use hazptr.Retired
use hazptr.Retired.{RetiredBag, AbandonedBags, null}

pub record Global (R : Type 0) : Type 0 where
  pub hazards : HazardList
  pub abandoned : AbandonedBags R

-- `vec.push(protected)`, if the hazard protects something.
abbrev collect : Vec Protected → Option Protected → Vec Protected
collect vec none = vec
collect vec (some protected) = push vec protected

collect_loop : Vec Protected → HazardList → Vec Protected
collect_loop vec [] = vec
collect_loop vec (hazard ∷ hazards) = collect_loop (collect vec (get_protected hazard)) hazards

module _ {R : Type 0} where
  -- `Global::new`
  abbrev pub new : Global R
  new = record { hazards = []; abandoned = record { head = null } }

  -- The position of the acquired hazard, and the state after.
  unfoldable pub get_hazard : Global R → Option ℕ → Outcome (ℕ × Global R)
  get_hazard g protect =
      HazardList.get_hazard g.hazards protect >>= λ r. returns (r.0, record g { hazards = r.1 })

  unfoldable pub collect_protected_hazards :
      Global R → Vec Protected → AtomicOrdering → Outcome (Vec Protected)
  unfolding collect_loop
  collect_protected_hazards g vec order =
      if is_seq_cst order
      then returns (collect_loop (record vec { items = [] }) g.hazards)
      else panics

  unfoldable pub abandon_retired_bag : Global R → RetiredBag R → Outcome (Global R)
  abandon_retired_bag g bag =
      if is_empty bag.inner.items
      then panics
      else returns (record g { abandoned = Retired.push g.abandoned bag })

  unfoldable pub try_adopt_abandoned_records : Global R → Option (RetiredBag R) × Global R
  try_adopt_abandoned_records g =
      let (bag, rest) = Retired.take_and_merge g.abandoned in (bag, record g { abandoned = rest })
