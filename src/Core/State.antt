-- ===== src/Core/State.antt =====
-- crates/tachyon-core/src/types.rs: the life of a download task, and the pause timer.
mod Graph
mod Examples
use ai_model_downloader.Base.{ℕ, ◌-◌, Bool, true, false, leb, if◌then◌else◌}
use ai_model_downloader.Core.Error.{DownloadError, DownloadResult, ok, err}

pub data DownloadState : Type 0 where
  pending connecting downloading paused resuming verifying completed failed cancelled :
      DownloadState

-- The pairs of the `matches!` in `try_transition`.
unfoldable pub is_valid_transition : DownloadState → DownloadState → Bool
is_valid_transition DownloadState.pending DownloadState.connecting = true
is_valid_transition DownloadState.connecting DownloadState.downloading = true
is_valid_transition DownloadState.connecting DownloadState.failed = true
is_valid_transition DownloadState.connecting DownloadState.cancelled = true
is_valid_transition DownloadState.downloading DownloadState.paused = true
is_valid_transition DownloadState.downloading DownloadState.verifying = true
is_valid_transition DownloadState.downloading DownloadState.failed = true
is_valid_transition DownloadState.downloading DownloadState.cancelled = true
is_valid_transition DownloadState.paused DownloadState.resuming = true
is_valid_transition DownloadState.paused DownloadState.cancelled = true
is_valid_transition DownloadState.resuming DownloadState.downloading = true
is_valid_transition DownloadState.resuming DownloadState.failed = true
is_valid_transition DownloadState.resuming DownloadState.cancelled = true
is_valid_transition DownloadState.verifying DownloadState.completed = true
is_valid_transition DownloadState.verifying DownloadState.failed = true
is_valid_transition DownloadState.verifying DownloadState.cancelled = true
is_valid_transition DownloadState.failed DownloadState.pending = true
is_valid_transition DownloadState.cancelled DownloadState.pending = true
is_valid_transition _ _ = false

unfoldable pub try_transition : DownloadState → DownloadState → DownloadResult DownloadState
unfolding is_valid_transition
try_transition s next = if is_valid_transition s next then ok next else err DownloadError.config

unfoldable pub is_terminal : DownloadState → Bool
is_terminal DownloadState.completed = true
is_terminal DownloadState.failed = true
is_terminal DownloadState.cancelled = true
is_terminal _ = false

pub record PauseInfo : Type 0 where
  pub paused_at_secs : ℕ
  pub max_duration_secs : ℕ

-- The clock, `now_unix_secs`, is an argument.
unfoldable pub new_pause : ℕ → ℕ → PauseInfo
new_pause now max_duration_secs = record {
  paused_at_secs = now;
  max_duration_secs = max_duration_secs;
}

unfoldable pub is_expired : PauseInfo → ℕ → Bool
is_expired p now = leb p.max_duration_secs (now - p.paused_at_secs)

unfoldable pub remaining_secs : PauseInfo → ℕ → ℕ
remaining_secs p now = p.max_duration_secs - (now - p.paused_at_secs)
