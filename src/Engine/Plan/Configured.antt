-- ===== src/Engine/Plan/Configured.antt =====
-- Planning under the configuration of config.rs.
use ai_model_downloader.Engine.Plan.Tiling.{Cuts}
use ai_model_downloader.Base.{
  nat_eq, string_eq, ℕ, ◌≤◌, ◌≡◌, refl, ◌≢◌, Bool, false, Option, none, some, List, [], ◌∷◌, arith,
  u64_max, Texts,
}
use ai_model_downloader.Core.Config.{
  AppConfig, DownloadConfig, validate_download, validate_connection, validate_scheduler, validate,
}
use ai_model_downloader.Engine.Plan.Whole.{plan_fragments_tile}
use ai_model_downloader.Engine.Plan.{SchedulerConfig, plan_fragments}
use ai_model_downloader.Core.Error.{ok, ◌>>=◌, ok-parts}
use ai_model_downloader.Core.Config as Config

-- What planning reads of the scheduler's configuration.
abbrev pub planning : {F : Type 0} → Config.SchedulerConfig F → SchedulerConfig
planning c = record {
  min_fragment_size = c.min_fragment_size;
  max_fragment_size = c.max_fragment_size;
  default_target_fragments = c.default_target_fragments;
  high_bandwidth_threshold = c.high_bandwidth_threshold;
  medium_bandwidth_threshold = c.medium_bandwidth_threshold;
}

-- The bounds that the numbers of a download keep.
pub record Bounded (c : DownloadConfig) : Type 0 where
  pub fragments : (1 ≤ c.max_concurrent_fragments) × (c.max_concurrent_fragments ≤ 256)
  pub retries : c.max_retries ≤ 100
  pub request : (1 ≤ c.request_timeout_secs) × (c.request_timeout_secs ≤ 3600)
  pub connect : (1 ≤ c.connect_timeout_secs) × (c.connect_timeout_secs ≤ 300)
  pub pause : (1 ≤ c.pause_timeout_secs) × (c.pause_timeout_secs ≤ 86400)
  pub stream : 1 ≤ c.max_full_stream_bytes
  pub rate : c.rate_limit_bytes_per_sec ≢ some 0

validate_download-Bounded : (c : DownloadConfig) → validate_download c ≡ ok tt → Bounded c
unfolding validate_download
validate_download-Bounded c h = record {
  fragments = ground arith;
  retries = ground arith;
  request = ground arith;
  connect = ground arith;
  pause = ground arith;
  stream = ground arith;
  rate = ground arith;
}

module _ {F : Type 0} (in_unit : F → Bool) where
  valid_scheduler-bounds :
      (c : Config.SchedulerConfig F)
      → validate_scheduler in_unit c ≡ ok tt
      → (c.min_fragment_size ≤ c.max_fragment_size) × (1 ≤ c.default_target_fragments)
  unfolding validate_scheduler
  valid_scheduler-bounds c h = ground arith

  -- The three parts of a configuration that passes.
  abbrev Parts : AppConfig F → Type 0
  Parts c =
      (1 ≤ c.max_concurrent_tasks)
      × (c.max_concurrent_tasks ≤ 100)
      × ((validate_download c.download >>= (λ _.
            validate_connection c.connection >>= (λ _. validate_scheduler in_unit c.scheduler)))
          ≡ ok tt)

  validate-Parts : (c : AppConfig F) → validate in_unit c ≡ ok tt → Parts c
  unfolding validate
  validate-Parts c h = (ground arith, ground arith, ground arith)

-- A configuration that validate accepts allows 1 to 100 tasks at once, its download part keeps its
-- bounds, and every file of 64 bits is planned under it without a panic: the fragments are numbered from
-- 0, cover the file from its first byte to its last without gap or overlap, and are at most 1,000,001.
pub validate_plans :
    {F : Type 0} (in_unit : F → Bool) (c : AppConfig F) (bandwidth_bps file_size : ℕ)
    (supports_range : Bool) (suggested : Option ℕ)
    → validate in_unit c ≡ ok tt
    → file_size ≤ u64_max
    → (1 ≤ c.max_concurrent_tasks)
      × (c.max_concurrent_tasks ≤ 100)
      × Bounded c.download
      × ((limit : ℕ) × Cuts limit file_size 0 0 1000001 (
            plan_fragments (planning c.scheduler) bandwidth_bps file_size supports_range suggested))
validate_plans in_unit c bandwidth_bps file_size supports_range suggested h u =
    let (low, high, rest) = validate-Parts in_unit c h in
    let (_, rest', d) = ok-parts _ tt (validate_download c.download) rest in
    let (_, s, _) = ok-parts _ tt (validate_connection c.connection) rest' in
    (
      low,
      high,
      validate_download-Bounded c.download d,
      plan_fragments_tile (planning c.scheduler) bandwidth_bps file_size supports_range suggested
          (valid_scheduler-bounds in_unit c.scheduler s).0 u,
    )

-- A deserialized configuration always has a directory to write to.
pub from_serde-dirs :
    (value : Config.DownloadConfigSerde)
    → Config.no_dirs (Config.from_serde value).authorized_dirs ≡ false
unfolding Config.from_serde
from_serde-dirs value = by_dirs value.config.download_dir value.authorized_dirs
  where
    by_dirs :
        (d : Texts) (o : Option (List Texts)) → Config.no_dirs (Config.dirs_or_default d o) ≡ false
    by_dirs d none = refl
    by_dirs d (some []) = refl
    by_dirs d (some (e ∷ es)) = refl
