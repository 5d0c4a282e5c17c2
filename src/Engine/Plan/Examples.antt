-- ===== src/Engine/Plan/Examples.antt =====
-- Plans of orchestrator.rs for concrete files.
use ai_model_downloader.Base.{
  nat_eq, string_eq, ℕ, ◌+◌, ◌*◌, ◌≤◌, ◌≡◌, refl, Bool, true, false, none, some, List, [], ◌∷◌,
  arith, leb, length, Texts,
}
use ai_model_downloader.Core.Config.{
  AppConfig, validate, validate_download, validate_connection, validate_scheduler,
}
use ai_model_downloader.Engine.Plan.Configured.{planning, Bounded, validate_plans}
use ai_model_downloader.Core.Error.{ok}
use ai_model_downloader.Core.FragmentInfo.{FragmentInfo}
use ai_model_downloader.Engine.Plan.{SchedulerConfig, max_fragment_count, plan_fragments}
use ai_model_downloader.Engine.Plan.Tiling.{Cuts}
use ai_model_downloader.Engine.Plan.Whole.{plan_fragments_tile}
use ai_model_downloader.Engine.Plan.Count.{count_over_limit}

-- Sizes in bytes.
abbrev small_config : SchedulerConfig
small_config = record {
  min_fragment_size = 4;
  max_fragment_size = 64;
  default_target_fragments = 4;
  high_bandwidth_threshold = 1000;
  medium_bandwidth_threshold = 100;
}

plan_fragments_tile_example :
    (limit : ℕ) × (Cuts limit 50 0 0 1000001 (plan_fragments small_config 500 50 true none))
plan_fragments_tile_example =
    plan_fragments_tile small_config 500 50 true none (omega arith) (omega arith)

count_over_limit_example :
    (fs : List FragmentInfo) × (plan_fragments small_config 500
        (max_fragment_count * 20 + 7)
        true
        (some 20)
      ≡ some (ok fs))
    × (length fs ≡ 1000001)
count_over_limit_example =
    count_over_limit small_config 500 20 7 (omega arith) (omega arith) (omega arith)

abbrev some_dir : Texts
some_dir = b'/' ∷ b'd' ∷ []

-- The defaults of config.rs, with the smoothing factor in per cent.
abbrev default_app : AppConfig ℕ
default_app = record {
  max_concurrent_tasks = 5;
  download = record {
    download_dir = some_dir;
    max_concurrent_fragments = 16;
    max_retries = 3;
    request_timeout_secs = 30;
    connect_timeout_secs = 10;
    verify_checksum = true;
    user_agent = b'T' ∷ [];
    pause_timeout_secs = 300;
    authorized_dirs = some_dir ∷ [];
    rate_limit_bytes_per_sec = none;
    max_full_stream_bytes = 64 * 1024 * 1024 * 1024;
  };
  connection = record {
    max_connections_per_host = 16;
    max_global_connections = 256;
    keep_alive_timeout_secs = 30;
    connect_timeout_secs = 10;
    enable_http2 = true;
    enable_quic = false;
  };
  scheduler = record {
    min_fragment_size = 1024 * 1024;
    max_fragment_size = 64 * 1024 * 1024;
    sampling_interval_secs = 60;
    ewma_alpha = 30;
    default_target_fragments = 16;
    high_bandwidth_threshold = 100 * 1024 * 1024;
    medium_bandwidth_threshold = 10 * 1024 * 1024;
  };
}

abbrev is_percent : ℕ → Bool
is_percent alpha = leb alpha 100

default_is_valid : validate is_percent default_app ≡ ok tt
unfolding validate validate_download validate_connection validate_scheduler
default_is_valid = refl

validate_plans_example :
    (1 ≤ default_app.max_concurrent_tasks)
    × (default_app.max_concurrent_tasks ≤ 100)
    × Bounded default_app.download
    × ((limit : ℕ) × Cuts limit 5000000 0 0 1000001
          (plan_fragments (planning default_app.scheduler) 1000 5000000 true none))
validate_plans_example =
    validate_plans is_percent default_app 1000 5000000 true none default_is_valid (omega arith)
