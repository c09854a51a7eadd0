-- ===== src/Config/Build.antt =====
-- Which configurations the builder yields: src/config.rs, `build` and `with_params`.
use mathlib.Core.Option.{get_or}
use hazptr.Prelude.{
  ℕ, zero, suc, ◌<◌, ◌≡◌, ◌≢◌, ◌⊎◌, Option, none, some, arith, returns, panics, refl, inl, inr,
}
use hazptr.Config.{Config, ConfigBuilder, build}

-- What the builder says, or the default.
pub record Built (b : ConfigBuilder) (c : Config) : Type 0 where
  pub positive : 0 < c.scan_threshold
  pub init_cache : c.init_cache ≡ get_or b.init_cache 128
  pub min_required_records : c.min_required_records ≡ get_or b.min_required_records 0
  pub scan_threshold : c.scan_threshold ≡ get_or b.scan_threshold 128

-- `build` panics exactly on a scan threshold that was set to 0; otherwise the configuration has the
-- values that were set, the defaults elsewhere, and a positive threshold.
pub build-Built :
    (b : ConfigBuilder)
    → ((b.scan_threshold ≡ some 0) × (build b ≡ panics))
      ⊎ ((c : Config) × (b.scan_threshold ≢ some 0) × (build b ≡ returns c) × Built b c)
unfolding build
build-Built b = go b.scan_threshold refl
  where
    config : ℕ → Config
    config n = record {
      init_cache = get_or b.init_cache 128;
      min_required_records = get_or b.min_required_records 0;
      scan_threshold = n;
    }

    go :
        (t : Option ℕ)
        → b.scan_threshold ≡ t
        → ((b.scan_threshold ≡ some 0) × (build b ≡ panics))
          ⊎ ((c : Config) × (b.scan_threshold ≢ some 0) × (build b ≡ returns c) × Built b c)
    go none e = inr (
      config 128,
      ground (arith, e),
      ground (arith, e),
      record {
        positive = omega arith;
        init_cache = refl;
        min_required_records = refl;
        scan_threshold = ground (arith, e);
      },
    )
    go (some zero) e = inl (e, ground (arith, e))
    go (some (suc n)) e = inr (
      config (suc n),
      ground (arith, e),
      ground (arith, e),
      record {
        positive = omega arith;
        init_cache = refl;
        min_required_records = refl;
        scan_threshold = ground (arith, e);
      },
    )
