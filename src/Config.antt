-- ===== src/Config.antt =====
-- src/config.rs: the runtime parameters and their builder. A `usize` or `u32` is a natural number;
-- no arithmetic is done on them here.
pub mod Build
use mathlib.Core.Option.{get_or}
use hazptr.Prelude.{ℕ, Option, none, some, ltb, if◌then◌else◌, Outcome, returns, panics}

abbrev default_init_cache : ℕ
default_init_cache = 128

abbrev default_min_required_records : ℕ
default_min_required_records = 0

abbrev default_scan_threshold : ℕ
default_scan_threshold = 128

pub record Config : Type 0 where
  pub init_cache : ℕ
  pub min_required_records : ℕ
  pub scan_threshold : ℕ

unfoldable pub with_params : ℕ → ℕ → ℕ → Outcome Config
with_params init_cache min_required_records scan_threshold =
    if ltb 0 scan_threshold
    then returns (record {
      init_cache = init_cache;
      min_required_records = min_required_records;
      scan_threshold = scan_threshold;
    })
    else panics

pub record ConfigBuilder : Type 0 where
  pub init_cache : Option ℕ
  pub min_required_records : Option ℕ
  pub scan_threshold : Option ℕ

-- `ConfigBuilder::new`
unfoldable pub new : ConfigBuilder
new = record { init_cache = none; min_required_records = none; scan_threshold = none }

unfoldable pub init_cache : ConfigBuilder → ℕ → ConfigBuilder
init_cache b n = record b { init_cache = some n }

unfoldable pub min_required_records : ConfigBuilder → ℕ → ConfigBuilder
min_required_records b n = record b { min_required_records = some n }

unfoldable pub scan_threshold : ConfigBuilder → ℕ → ConfigBuilder
scan_threshold b n = record b { scan_threshold = some n }

unfoldable pub build : ConfigBuilder → Outcome Config
unfolding with_params
build b =
    with_params (get_or b.init_cache default_init_cache)
      (get_or b.min_required_records default_min_required_records)
      (get_or b.scan_threshold default_scan_threshold)

-- `impl Default for Config`
unfoldable pub default : Outcome Config
unfolding new build
default = build new
