-- ===== src/Rewrite/Config.antt =====
-- hazptr_rewrite/src/config.rs.
use hazptr.Prelude.{ℕ, Bool, true, false, Option, none, some}

abbrev default_scan_cache_size : ℕ
default_scan_cache_size = 128

abbrev default_max_reserved_hazard_pointers : ℕ
default_max_reserved_hazard_pointers = 16

abbrev default_ops_count_threshold : ℕ
default_ops_count_threshold = 128

pub data Operation : Type 0 where
  release : Operation
  retire : Operation

abbrev default_count_strategy : Operation
default_count_strategy = retire

-- `op == self.count_strategy`
abbrev pub same_operation : Operation → Operation → Bool
same_operation release release = true
same_operation release retire = false
same_operation retire release = false
same_operation retire retire = true

pub record Config : Type 0 where
  pub initial_scan_cache_size : ℕ
  pub max_reserved_hazard_pointers : ℕ  -- u32
  pub ops_count_threshold : ℕ  -- u32
  pub count_strategy : Operation

abbrev pub is_count_release : Config → Bool
is_count_release c = same_operation c.count_strategy release

abbrev pub is_count_retire : Config → Bool
is_count_retire c = same_operation c.count_strategy retire

-- `impl Default for Config`
abbrev pub default : Config
default = record {
  initial_scan_cache_size = default_scan_cache_size;
  max_reserved_hazard_pointers = default_max_reserved_hazard_pointers;
  ops_count_threshold = default_ops_count_threshold;
  count_strategy = default_count_strategy;
}

pub record ConfigBuilder : Type 0 where
  pub initial_scan_cache_size : Option ℕ
  pub max_reserved_hazard_pointers : Option ℕ
  pub ops_count_threshold : Option ℕ
  pub count_strategy : Option Operation

-- `ConfigBuilder::new`
abbrev pub new : ConfigBuilder
new = record {
  initial_scan_cache_size = none;
  max_reserved_hazard_pointers = none;
  ops_count_threshold = none;
  count_strategy = none;
}

-- `ConfigBuilder::initial_scan_cache_size`
abbrev pub with_scan_cache_size : ConfigBuilder → ℕ → ConfigBuilder
with_scan_cache_size b val = record b { initial_scan_cache_size = some val }

abbrev unwrap_or : {A : Type 0} → Option A → A → A
unwrap_or none a = a
unwrap_or (some b) a = b

abbrev pub build : ConfigBuilder → Config
build b = record {
  initial_scan_cache_size = unwrap_or b.initial_scan_cache_size default_scan_cache_size;
  max_reserved_hazard_pointers =
      unwrap_or b.max_reserved_hazard_pointers default_max_reserved_hazard_pointers;
  ops_count_threshold = unwrap_or b.ops_count_threshold default_ops_count_threshold;
  count_strategy = unwrap_or b.count_strategy default_count_strategy;
}
