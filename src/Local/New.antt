-- ===== src/Local/New.antt =====
-- How a thread's state begins: src/local.rs, `Local::new`.
use hazptr.Prelude.{
  ℕ, ◌^◌, ◌<◌, ◌≡◌, ◌≢◌, ◌∙◌, refl, Option, none, some, List, [], arith, Returns, ◌≤◌, SameItems,
}
use hazptr.Config.{Config, default}
use hazptr.Hazard.{free}
use hazptr.Hazard.HazardList.{HazardList}
use hazptr.Retired
use hazptr.Retired.{RetiredBag, take_and_merge}
use hazptr.Retired.Merge.{records, taken, take_and_merge-SameItems}
use hazptr.Global.{Global, try_adopt_abandoned_records}
use hazptr.Local
use hazptr.Local.{LocalInner, State, or_new, start}
use hazptr.Local.Cache.{IsOwned, holds, word_at}
use hazptr.Local.Count.{IsCounting}

-- What `CONFIG` may hold: `with_params` has tested the lower bound, and the type gives the upper.
abbrev pub IsConfigured : Option Config → Type 0
IsConfigured none = Unit {0}
IsConfigured (some c) = (0 < c.scan_threshold) × (c.scan_threshold < 2 ^ 32)

-- The hazards that others hold, before the thread has any.
pub record IsHeld (owned : List ℕ) (hs : HazardList) : Type 0 where
  pub once : (i : ℕ) → holds owned i ≤ 1
  pub held : (i : ℕ) → 0 < holds owned i → word_at hs i ≢ free

pub record Starts {R : Type 0} (owned : List ℕ) (g : Global R) (r : LocalInner R × Global R)
    : Type 0 where
  pub counting : IsCounting r.0
  pub count : r.0.ops_count ≡ 0
  pub ownership : IsOwned owned (record { local = r.0; global = r.1; reclaimed = [] })
  pub adopted : SameItems r.0.retired_bag.inner.items (records g.abandoned.head)
  pub emptied : r.1.abandoned.head ≡ Retired.null

module _ {R : Type 0} (owned : List ℕ) where
  or_new-SameItems :
      (o : Option (RetiredBag R)) (n : ℕ) → SameItems (or_new o n).inner.items (taken o)
  unfolding or_new
  or_new-SameItems none n p = refl
  or_new-SameItems (some bag) n p = refl

  start-Starts :
      (c : Config) (g : Global R)
      → 0 < c.scan_threshold
      → c.scan_threshold < 2 ^ 32
      → IsHeld owned g.hazards
      → Starts owned g (start c g)
  unfolding start try_adopt_abandoned_records
  start-Starts c g low high h = record {
    counting = record { below = low; wide = high };
    count = refl;
    ownership = record {
      apart = λ i. omega (arith, h.once i);
      claimed = h.held;
      parked = λ i b. absurd (omega arith);
      small = omega arith;
    };
    adopted = λ p.
        or_new-SameItems (take_and_merge g.abandoned).0 c.init_cache p
        ∙ (take_and_merge-SameItems g.abandoned).0 p;
    emptied = (take_and_merge-SameItems g.abandoned).1;
  }

  -- A new thread state is made without a panic, counts from 0, holds no hazard, and has taken over
  -- exactly the abandoned records.
  pub new-Starts :
      (config : Option Config) (g : Global R)
      → IsConfigured config
      → IsHeld owned g.hazards
      → Returns (Local.new config g) (Starts owned g)
  unfolding Local.new default
  new-Starts none g ok h = start-Starts _ g (omega arith) (omega arith) h
  new-Starts (some c) g ok h = start-Starts c g ok.0 ok.1 h
