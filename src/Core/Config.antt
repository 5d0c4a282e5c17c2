-- ===== src/Core/Config.antt =====
-- crates/tachyon-core/src/config.rs: the configurations and their validation. A text is the list of its
-- characters' codes; whether an `f64` lies in 0.0 ..= 1.0 is an argument. Headers and strategies, which no
-- check reads, are left out.
use ai_model_downloader.Base.{
  nat_eq, string_eq, ℕ, Bool, true, false, not, Option, none, some, List, [], ◌∷◌, ltb, ◌==◌,
  if◌then◌else◌, Texts, is_empty,
}
use ai_model_downloader.Core.Error.{DownloadError, DownloadResult, ok, err, ◌>>=◌}

abbrev pub max_concurrent_fragments_limit : ℕ
max_concurrent_fragments_limit = 256

abbrev pub max_retries_limit : ℕ
max_retries_limit = 100

abbrev pub request_timeout_secs_limit : ℕ
request_timeout_secs_limit = 3600

abbrev pub connect_timeout_secs_limit : ℕ
connect_timeout_secs_limit = 300

abbrev pub pause_timeout_secs_limit : ℕ
pause_timeout_secs_limit = 86400

abbrev pub max_connections_per_host_limit : ℕ
max_connections_per_host_limit = 128

abbrev pub max_global_connections_limit : ℕ
max_global_connections_limit = 4096

abbrev pub max_concurrent_tasks_limit : ℕ
max_concurrent_tasks_limit = 100

pub record DownloadConfig : Type 0 where
  pub download_dir : Texts
  pub max_concurrent_fragments : ℕ
  pub max_retries : ℕ
  pub request_timeout_secs : ℕ
  pub connect_timeout_secs : ℕ
  pub verify_checksum : Bool
  pub user_agent : Texts
  pub pause_timeout_secs : ℕ
  pub authorized_dirs : List Texts
  pub rate_limit_bytes_per_sec : Option ℕ
  pub max_full_stream_bytes : ℕ

-- What `serde` reads: the list of directories may be missing.
pub record DownloadConfigSerde : Type 0 where
  pub config : DownloadConfig
  pub authorized_dirs : Option (List Texts)

abbrev pub dirs_or_default : Texts → Option (List Texts) → List Texts
dirs_or_default download_dir none = download_dir ∷ []
dirs_or_default download_dir (some []) = download_dir ∷ []
dirs_or_default download_dir (some (d ∷ ds)) = d ∷ ds

-- `From<DownloadConfigSerde>`.
unfoldable pub from_serde : DownloadConfigSerde → DownloadConfig
from_serde value = record value.config {
  authorized_dirs = dirs_or_default value.config.download_dir value.authorized_dirs;
}

pub record ConnectionConfig : Type 0 where
  pub max_connections_per_host : ℕ
  pub max_global_connections : ℕ
  pub keep_alive_timeout_secs : ℕ
  pub connect_timeout_secs : ℕ
  pub enable_http2 : Bool
  pub enable_quic : Bool

pub record SchedulerConfig (F : Type 0) : Type 0 where
  pub min_fragment_size : ℕ
  pub max_fragment_size : ℕ
  pub sampling_interval_secs : ℕ
  pub ewma_alpha : F
  pub default_target_fragments : ℕ
  pub high_bandwidth_threshold : ℕ
  pub medium_bandwidth_threshold : ℕ

pub record AppConfig (F : Type 0) : Type 0 where
  pub max_concurrent_tasks : ℕ
  pub download : DownloadConfig
  pub connection : ConnectionConfig
  pub scheduler : SchedulerConfig F

abbrev pub is_zero : Option ℕ → Bool
is_zero none = false
is_zero (some rate) = rate == 0

abbrev pub no_dirs : List Texts → Bool
no_dirs [] = true
no_dirs (d ∷ ds) = false

-- A check of the chain: an error, or the next check.
abbrev pub refuse : Bool → DownloadResult (Unit {0}) → DownloadResult (Unit {0})
refuse test next = if test then err DownloadError.config else next

unfoldable pub validate_download : DownloadConfig → DownloadResult (Unit {0})
validate_download c = refuse (c.max_concurrent_fragments == 0) (
    refuse (ltb max_concurrent_fragments_limit c.max_concurrent_fragments) (
      refuse (ltb max_retries_limit c.max_retries) (
        refuse (c.request_timeout_secs == 0) (
          refuse (ltb request_timeout_secs_limit c.request_timeout_secs) (
            refuse (c.connect_timeout_secs == 0) (
              refuse (ltb connect_timeout_secs_limit c.connect_timeout_secs) (
                refuse (is_empty c.download_dir) (
                  refuse (c.pause_timeout_secs == 0) (
                    refuse (ltb pause_timeout_secs_limit c.pause_timeout_secs) (
                      refuse (is_zero c.rate_limit_bytes_per_sec) (
                        refuse (c.max_full_stream_bytes == 0) (
                          refuse (is_empty c.user_agent)
                            (refuse (no_dirs c.authorized_dirs) (ok tt))))))))))))))

unfoldable pub validate_connection : ConnectionConfig → DownloadResult (Unit {0})
validate_connection c = refuse (c.max_connections_per_host == 0) (
    refuse (ltb max_connections_per_host_limit c.max_connections_per_host) (
      refuse (c.max_global_connections == 0)
        (refuse (ltb max_global_connections_limit c.max_global_connections) (ok tt))))

module _ {F : Type 0} (in_unit : F → Bool) where
  unfoldable pub validate_scheduler : SchedulerConfig F → DownloadResult (Unit {0})
  validate_scheduler c = refuse (c.min_fragment_size == 0) (
      refuse (c.max_fragment_size == 0) (
        refuse (ltb c.max_fragment_size c.min_fragment_size) (
          refuse (not (in_unit c.ewma_alpha)) (
            refuse (c.default_target_fragments == 0)
              (refuse (c.sampling_interval_secs == 0) (ok tt))))))

  unfoldable pub validate : AppConfig F → DownloadResult (Unit {0})
  validate c = refuse (c.max_concurrent_tasks == 0) (
      refuse (ltb max_concurrent_tasks_limit c.max_concurrent_tasks) (
        validate_download c.download
        >>= (λ _. validate_connection c.connection >>= (λ _. validate_scheduler c.scheduler))))
