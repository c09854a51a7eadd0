-- ===== src/Rewrite/Local.antt =====
-- hazptr_rewrite/src/local/inner.rs: the state of one thread, with the state that threads share and
-- the log of reclaimed records. An operation runs without other threads, but that `try_reclaim` takes
-- what they do between its scan of the hazards and its reclamation as an argument.
pub mod Records
pub mod Reclaim
pub mod Access
pub mod Handles
pub mod Leaves
pub mod Safety
use hazptr.Prelude.{
  ℕ, ◌+◌, ◌-◌, ◌%◌, ◌^◌, Bool, not, true, false, Option, none, some, List, [], ◌∷◌, ◌++◌, ltb, ◌==◌,
  if◌then◌else◌, Outcome, returns, panics, ◌>>=◌, Result, ok, err, length, is_empty, modify,
}
use hazptr.Std.Vec.{Vec, with_capacity}
use hazptr.Std.Sort.{sort_unstable}
use hazptr.Hazard.{AtomicOrdering, seq_cst, is_seq_cst}
use hazptr.Rewrite.Config.{Config, Operation, same_operation, is_count_retire}
use hazptr.Rewrite.Hazard.{
  HazardPtr, set_free, set_thread_reserved, with_protected, ProtectStrategy, reserve_only, protect,
}
use hazptr.Rewrite.HazardList
use hazptr.Rewrite.HazardList.{HazardList, collect_protected_hazards}
use hazptr.Rewrite.Retire
use hazptr.Rewrite.Retire.{
  GlobalRetireState, LocalRetireState, RetireNode, node_is_empty, node_retire, queue_retire, merge,
  take_all_and_merge, node_reclaim_all_unprotected, queue_reclaim_all_unprotected,
}

abbrev pub hazard_cache_capacity : ℕ
hazard_cache_capacity = 16

pub data RecycleError : Type 0 where
  recycle_error : RecycleError

pub record Global (R : Type 0) : Type 0 where
  pub retire_state : GlobalRetireState R
  pub hazards : HazardList

pub record LocalInner (R : Type 0) : Type 0 where
  pub config : Config
  pub state : LocalRetireState R
  pub ops_count : ℕ  -- u32
  pub hazard_cache : List ℕ  -- positions, the last one pushed first
  pub scan_cache : Vec ℕ

pub record State (R : Type 0) : Type 0 where
  pub local : LocalInner R
  pub global : Global R
  pub reclaimed : List R

-- A store to the hazard at a position.
pub modify_hazard : HazardList → ℕ → (HazardPtr → HazardPtr) → HazardList
modify_hazard [] i f = []
modify_hazard (node ∷ nodes) i f =
    let rest = modify_hazard nodes (i - length node) f in
    if ltb i (length node) then modify node i f ∷ nodes else node ∷ rest

set_all_free : List ℕ → HazardList → HazardList
unfolding modify_hazard
set_all_free [] hs = hs
set_all_free (i ∷ cache) hs = set_all_free cache (modify_hazard hs i set_free)

module _ {R : Type 0} where
  -- `LocalInner::new`, with the global state after.
  unfoldable pub new : Config → Global R → LocalInner R × Global R
  unfolding hazptr.Rewrite.Retire.from
  new config global =
      let (state, retire_state) = hazptr.Rewrite.Retire.from global.retire_state in
      (
        record {
          config = config;
          state = state;
          ops_count = 0;
          hazard_cache = [];
          scan_cache = with_capacity 0;
        },
        record global { retire_state = retire_state },
      )

  abbrev pub store : State R → HazardList → State R
  store s hs = record s { global = record (s.global) { hazards = hs } }

  -- `hazard.set_protected(..)`
  unfoldable pub set_protected : State R → ℕ → ℕ → AtomicOrdering → Outcome (State R)
  unfolding modify_hazard
  set_protected s i protected order =
      if is_seq_cst order
      then returns (store s (modify_hazard s.global.hazards i (λ _. with_protected protected)))
      else panics

  -- A hazard from the cache, with what is to be protected.
  protect_cached : State R → ℕ → ProtectStrategy → Outcome (ℕ × State R)
  unfolding set_protected
  protect_cached s i reserve_only = returns (i, s)
  protect_cached s i (protect protected) =
      set_protected s i protected seq_cst >>= λ t. returns (i, t)

  take_cached : List ℕ → State R → ProtectStrategy → Outcome (ℕ × State R)
  unfolding protect_cached
  take_cached [] s strategy =
      let r = hazptr.Rewrite.HazardList.get_hazard s.global.hazards strategy in
      returns (r.0, store s r.1)
  take_cached (i ∷ cache) s strategy =
      protect_cached (record s { local = record (s.local) { hazard_cache = cache } }) i strategy

  unfoldable pub get_hazard : State R → ProtectStrategy → Outcome (ℕ × State R)
  unfolding take_cached
  get_hazard s strategy = take_cached s.local.hazard_cache s strategy

  abbrev pub recycled : State R → ℕ → State R
  recycled s i = record s {
    local = record (s.local) { hazard_cache = i ∷ s.local.hazard_cache };
    global = record (s.global) { hazards = modify_hazard s.global.hazards i set_thread_reserved };
  }

  unfoldable pub try_recycle_hazard : State R → ℕ → Result RecycleError (State R)
  try_recycle_hazard s i =
      if ltb (length s.local.hazard_cache) hazard_cache_capacity
      then ok (recycled s i)
      else err recycle_error

  abbrev pub with_state : State R → LocalRetireState R → GlobalRetireState R → State R
  with_state s l g = record s {
    local = record (s.local) { state = l };
    global = record (s.global) { retire_state = g };
  }

  -- `has_retired_records`, of the two states; `unreachable!()` panics.
  pub has_retired_records : LocalRetireState R → GlobalRetireState R → Outcome Bool
  has_retired_records LocalRetireState.global_strategy (GlobalRetireState.global_strategy queue) =
      returns (not (is_empty queue))
  has_retired_records LocalRetireState.global_strategy
        (GlobalRetireState.local_strategy abandoned) =
      panics
  has_retired_records (LocalRetireState.local_strategy node) g = returns (not (node_is_empty node))

  retire_in :
      LocalRetireState R
      → GlobalRetireState R
      → R
      → Outcome (LocalRetireState R × GlobalRetireState R)
  retire_in LocalRetireState.global_strategy (GlobalRetireState.global_strategy queue) r =
      returns
        (LocalRetireState.global_strategy, GlobalRetireState.global_strategy (queue_retire queue r))
  retire_in LocalRetireState.global_strategy (GlobalRetireState.local_strategy abandoned) r = panics
  retire_in (LocalRetireState.local_strategy node) g r =
      returns (LocalRetireState.local_strategy (node_retire node r), g)

  unfoldable pub retire_inner : State R → R → Outcome (State R)
  unfolding retire_in
  retire_inner s r =
      retire_in s.local.state s.global.retire_state r >>= λ e. returns (with_state s e.0 e.1)

  -- The count goes on without a test of the threshold.
  unfoldable pub retire : State R → R → Outcome (State R)
  retire s r = retire_inner s r >>= λ t. returns (
      if is_count_retire t.local.config
      then record t { local = record (t.local) { ops_count = (t.local.ops_count + 1) % 2 ^ 32 } }
      else t)

  -- `local.merge(node.into_inner())`, if there is one.
  pub adopt : RetireNode R → Option (RetireNode R) → RetireNode R
  adopt node none = node
  adopt node (some taken) = merge node taken.vec

  -- The end of `drop`: under the local strategy, what is left is handed on.
  pub abandon : LocalRetireState R → GlobalRetireState R → Outcome (GlobalRetireState R)
  abandon LocalRetireState.global_strategy g = returns g
  abandon (LocalRetireState.local_strategy node) (GlobalRetireState.local_strategy abandoned) =
      returns (
        GlobalRetireState.local_strategy
          (if node_is_empty node then abandoned else hazptr.Rewrite.Retire.abandon abandoned node))
  abandon (LocalRetireState.local_strategy node) (GlobalRetireState.global_strategy queue) =
      if node_is_empty node then returns (GlobalRetireState.global_strategy queue) else panics

-- No other thread runs in between.
abbrev pub undisturbed : {R : Type 0} → Global R → Global R
undisturbed g = g

module _ {R : Type 0} (address : R → ℕ) where
  -- `reclaim_all_unprotected`, of the two states and the scan cache: the states, the scan cache and
  -- what is reclaimed. Only the local strategy sorts the scan cache.
  pub reclaim_in :
      LocalRetireState R
      → GlobalRetireState R
      → Vec ℕ
      → Outcome (LocalRetireState R × GlobalRetireState R × Vec ℕ × List R)
  unfolding adopt take_all_and_merge
  reclaim_in LocalRetireState.global_strategy (GlobalRetireState.global_strategy queue) scan =
      let (rest, freed) = queue_reclaim_all_unprotected address queue scan.items in
      returns
        (LocalRetireState.global_strategy, GlobalRetireState.global_strategy rest, scan, freed)
  reclaim_in LocalRetireState.global_strategy (GlobalRetireState.local_strategy abandoned) scan =
      panics
  reclaim_in (LocalRetireState.local_strategy node) (GlobalRetireState.global_strategy queue) scan =
      panics
  reclaim_in (LocalRetireState.local_strategy node) (GlobalRetireState.local_strategy abandoned)
        scan =
      let (taken, rest) = take_all_and_merge abandoned in
      let sorted = record scan { items = sort_unstable scan.items } in
      let (kept, freed) = node_reclaim_all_unprotected address (adopt node taken) sorted.items in
      returns
        (LocalRetireState.local_strategy kept, GlobalRetireState.local_strategy rest, sorted, freed)

  unfoldable pub reclaim_all_unprotected : State R → Outcome (State R)
  unfolding reclaim_in
  reclaim_all_unprotected s =
      reclaim_in s.local.state s.global.retire_state s.local.scan_cache >>= λ e.
      returns (record (with_state s e.0 e.1) {
        local = record (s.local) { state = e.0; scan_cache = e.2 };
        reclaimed = s.reclaimed ++ e.3;
      })

  -- `others` is what other threads do to the global state after the hazards have been collected and
  -- before the retired or abandoned records are taken from it.
  unfoldable pub try_reclaim : (others : Global R → Global R) → State R → Outcome (State R)
  unfolding has_retired_records
  try_reclaim others s =
      let scan = collect_protected_hazards s.global.hazards s.local.scan_cache seq_cst >>= λ v.
      reclaim_all_unprotected
        (record s { local = record (s.local) { scan_cache = v }; global = others s.global }) in
      has_retired_records s.local.state s.global.retire_state >>= λ b. if b then scan else returns s

  unfoldable pub try_increase_ops_count : State R → Operation → Outcome (State R)
  try_increase_ops_count s op =
      let ops_count = (s.local.ops_count + 1) % 2 ^ 32 in
      let due = try_reclaim undisturbed (record s { local = record (s.local) { ops_count = 0 } }) in
      let counted = record s { local = record (s.local) { ops_count = ops_count } } in
      if same_operation op s.local.config.count_strategy
      then (if ops_count == s.local.config.ops_count_threshold then due else returns counted)
      else returns s

  unfoldable pub drop : State R → Outcome (Global R × List R)
  unfolding set_all_free abandon
  drop s =
      try_reclaim undisturbed (store s (set_all_free s.local.hazard_cache s.global.hazards))
      >>= λ t. abandon t.local.state t.global.retire_state >>= λ g.
          returns (record (t.global) { retire_state = g }, t.reclaimed)
