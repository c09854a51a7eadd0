-- ===== src/Local.antt =====
-- src/local.rs: the state of one thread. An operation maps the thread's state, the global state and
-- the log of reclaimed records to the new ones; no other thread runs during it.
-- `count_release` is the crate feature of that name; `address` is `Retired::address`, and a call of
-- `Retired::reclaim` is an entry of the log.
pub mod Count
pub mod Scan
pub mod Records
pub mod Access
pub mod Cache
pub mod Keeps
pub mod New
pub mod Drop
pub mod Handover
pub mod RoundTrip
pub mod Safety
use hazptr.Prelude.{
  ℕ, ◌+◌, ◌%◌, ◌^◌, Bool, not, Option, none, some, List, [], ◌∷◌, ◌++◌, leb, ltb, ◌==◌,
  if◌then◌else◌, Outcome, returns, ◌>>=◌, Result, ok, err, length, is_empty, keep, modify,
}
use hazptr.Std.Vec.{Vec, with_capacity, push, retain, push, len}
use hazptr.Std.Sort.{sort_unstable}
use hazptr.Std.Search.{is_ok, binary_search_by}
use hazptr.Config.{Config, default as default_config}
use hazptr.Hazard.{Protected, seq_cst, set_free, set_thread_reserved}
use hazptr.Hazard.HazardList.{HazardList}
use hazptr.Retired
use hazptr.Retired.{RetiredBag, compare_with}
use hazptr.Global
use hazptr.Global.{Global}

abbrev pub hazard_cache_capacity : ℕ
hazard_cache_capacity = 16

abbrev scan_cache_capacity : ℕ
scan_cache_capacity = 64

pub data RecycleError : Type 0 where
  access capacity : RecycleError

pub record LocalInner (R : Type 0) : Type 0 where
  pub config : Config
  pub flush_count : ℕ
  pub hazard_cache : List ℕ  -- positions in the hazard list, the last one pushed first
  pub ops_count : ℕ  -- u32
  pub scan_cache : Vec Protected
  pub retired_bag : RetiredBag R

pub record State (R : Type 0) : Type 0 where
  pub local : LocalInner R
  pub global : Global R
  pub reclaimed : List R

-- `hazard.set_free(..)` for each hazard of the cache.
set_all_free : List ℕ → HazardList → HazardList
set_all_free [] hs = hs
set_all_free (i ∷ cache) hs = set_all_free cache (modify hs i set_free)

module _ {R : Type 0} where
  -- The adopted bag, or a new one.
  or_new : Option (RetiredBag R) → ℕ → RetiredBag R
  or_new none init_cache = Retired.new init_cache
  or_new (some bag) init_cache = bag

  start : Config → Global R → LocalInner R × Global R
  unfolding or_new
  start c g =
      let (adopted, g') = Global.try_adopt_abandoned_records g in
      (
        record {
          config = c;
          flush_count = 0;
          hazard_cache = [];
          ops_count = 0;
          scan_cache = with_capacity scan_cache_capacity;
          retired_bag = or_new adopted c.init_cache;
        },
        g',
      )

  -- `Local::new`, from what `CONFIG.try_get()` gives.
  unfoldable pub new : Option Config → Global R → Outcome (LocalInner R × Global R)
  unfolding start
  new config g =
      elim config [ none ↦ default_config | some c ↦ returns c ] >>= λ c. returns (start c g)

  -- `get_hazard`: from the cache, whatever is to be protected, or else from the global list.
  take_cached : List ℕ → Option ℕ → State R → Outcome (ℕ × State R)
  take_cached [] protect s =
      Global.get_hazard s.global protect >>= λ r. returns (r.0, record s { global = r.1 })
  take_cached (i ∷ cache) protect s =
      returns (i, record s { local = record (s.local) { hazard_cache = cache } })

  unfoldable pub get_hazard : State R → Option ℕ → Outcome (ℕ × State R)
  unfolding take_cached
  get_hazard s protect = take_cached s.local.hazard_cache protect s

  abbrev pub store : State R → HazardList → State R
  store s hs = record s { global = record (s.global) { hazards = hs } }

  -- The hazard pushed to the cache and reserved.
  abbrev pub recycled : State R → ℕ → State R
  recycled s i = record s {
    local = record (s.local) { hazard_cache = i ∷ s.local.hazard_cache };
    global = record (s.global) { hazards = modify s.global.hazards i set_thread_reserved };
  }

  unfoldable pub try_recycle_hazard : State R → ℕ → Result RecycleError (State R)
  try_recycle_hazard s i =
      if ltb (length s.local.hazard_cache) hazard_cache_capacity
      then ok (recycled s i)
      else err capacity

  -- `self.retired_bag.merge(abandoned_bag.inner)`, if there is one.
  adopt : RetiredBag R → Option (RetiredBag R) → RetiredBag R
  adopt bag none = bag
  adopt bag (some abandoned) = record bag { inner = Retired.merge bag.inner abandoned.inner }

  -- `retired_bag.inner.push(..)`
  abbrev pub stash : State R → R → State R
  stash s r =
      let bag = s.local.retired_bag in
      record s {
        local = record (s.local) { retired_bag = record bag { inner = push bag.inner r } };
      }

  -- The state that `try_flush` scans: abandoned records adopted, the count reset.
  unfoldable pub flushed : State R → State R
  unfolding adopt Global.try_adopt_abandoned_records
  flushed s =
      let (abandoned, g) = Global.try_adopt_abandoned_records s.global in
      record s {
        local = record (s.local) {
          ops_count = 0;
          retired_bag = adopt s.local.retired_bag abandoned;
        };
        global = g;
      }

  -- The end of `drop`: what is left in the bag is handed on.
  unfoldable pub abandon : State R → Outcome (Global R × List R)
  abandon s =
      if is_empty s.local.retired_bag.inner.items
      then returns (s.global, s.reclaimed)
      else (Global.abandon_retired_bag s.global s.local.retired_bag >>= λ g.
          returns (g, s.reclaimed))

module _ {R : Type 0} (address : R → ℕ) where
  -- The closure of `retain`.
  is_retained : List Protected → R → Bool
  is_retained scan_cache retired =
      is_ok (binary_search_by scan_cache (compare_with (address retired)))

  reclaim_unprotected_records : State R → State R
  unfolding is_retained
  reclaim_unprotected_records s =
      let retained = is_retained s.local.scan_cache.items in
      let bag = s.local.retired_bag in
      record s {
        local = record (s.local) { retired_bag = record bag { inner = retain retained bag.inner } };
        reclaimed = s.reclaimed ++ keep (λ r. not (retained r)) bag.inner.items;
      }

  unfoldable pub scan_hazards : State R → Outcome (State R)
  unfolding reclaim_unprotected_records
  scan_hazards s =
      let scan = Global.collect_protected_hazards s.global s.local.scan_cache seq_cst >>= λ v.
      let sorted = record v { items = sort_unstable v.items } in
      returns (
        reclaim_unprotected_records
          (record s { local = record (s.local) { scan_cache = sorted } })) in
      if leb (len s.local.retired_bag.inner) s.local.config.min_required_records
      then returns s
      else scan

  unfoldable pub try_flush : State R → Outcome (State R)
  try_flush s = scan_hazards (flushed s)

  unfoldable pub increase_ops_count : State R → Outcome (State R)
  increase_ops_count s =
      let ops_count = (s.local.ops_count + 1) % 2 ^ 32 in
      let counted = record s { local = record (s.local) { ops_count = ops_count } } in
      if ops_count == s.local.config.scan_threshold then try_flush counted else returns counted

  unfoldable pub retire_record : Bool → State R → R → Outcome (State R)
  retire_record count_release s r =
      if count_release then returns (stash s r) else increase_ops_count (stash s r)

  -- `LocalInner::drop`; what is left is the global state and the log.
  unfoldable pub drop : State R → Outcome (Global R × List R)
  unfolding set_all_free
  drop s = scan_hazards (store s (set_all_free s.local.hazard_cache s.global.hazards)) >>= abandon
