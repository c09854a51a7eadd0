-- ===== src/Examples/Sample.antt =====
-- A thread with two retired records, one of them protected, at the edge of its scan threshold.
use hazptr.Prelude.{ℕ, zero, suc, ◌+◌, ◌*◌, ◌<◌, ◌≡◌, ◌≢◌, [], ◌∷◌, arith, refl}
use hazptr.Std.Vec.{Vec}
use hazptr.Hazard.{Hazard, free, thread_reserved}
use hazptr.Hazard.HazardList.{HazardList}
use hazptr.Retired.{null, non_null}
use hazptr.Global.{Global}
use hazptr.Local.{LocalInner, State}
use hazptr.Local.Cache.{IsOwned, holds, word_at}
use hazptr.Local.New.{IsHeld}
use hazptr.Global.Collect.{IsAddress}
use hazptr.Local.Count.{IsCounting}

abbrev pub hazard : ℕ → Hazard
hazard w = record { protected = w }

-- Position 0 protects the record at 100, position 1 is reserved, position 2 is free.
abbrev pub hazards : HazardList
hazards = hazard 100 ∷ hazard 1 ∷ hazard 0 ∷ []

abbrev pub bag : Vec ℕ
bag = record { items = 0 ∷ 1 ∷ []; capacity = 128 }

abbrev pub left : Vec ℕ
left = record { items = 2 ∷ []; capacity = 4 }

abbrev pub global : Global ℕ
global = record { hazards = hazards; abandoned = record { head = non_null left null } }

abbrev pub local : LocalInner ℕ
local = record {
  config = record { init_cache = 128; min_required_records = 0; scan_threshold = 2 };
  flush_count = 0;
  hazard_cache = 1 ∷ [];
  ops_count = 1;
  scan_cache = record { items = 7 ∷ []; capacity = 64 };
  retired_bag = record { inner = bag; next = null };
}

abbrev pub state : State ℕ
state = record { local = local; global = global; reclaimed = [] }

-- The records 0, 1, 2, ... lie at 100, 200, 300, ...
abbrev pub address : ℕ → ℕ
address r = 100 * r + 100

pub address-IsAddress : (r : ℕ) → IsAddress (address r)
address-IsAddress r = (omega arith, omega arith)

pub local-IsCounting : IsCounting local
local-IsCounting = omega arith

claimed : (i : ℕ) → 0 < holds (0 ∷ []) i → word_at hazards i ≢ free
claimed zero h e = omega (arith, e)
claimed (suc i) h e = ground (arith, h)

parked : (i : ℕ) → 0 < holds (1 ∷ []) i → word_at hazards i ≡ thread_reserved
parked zero h = absurd (ground (arith, h))
parked (suc zero) h = refl
parked (suc (suc i)) h = absurd (ground (arith, h))

-- A guard holds position 0.
pub state-IsOwned : IsOwned (0 ∷ []) state
state-IsOwned = record {
  apart = λ i. ground arith;
  claimed = claimed;
  parked = parked;
  small = omega arith;
}

pub hazards-IsHeld : IsHeld (0 ∷ []) hazards
hazards-IsHeld = record { once = λ i. ground arith; held = claimed }
