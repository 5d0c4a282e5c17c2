-- ===== src/Core/State/Examples.antt =====
-- Runs of the task life cycle of types.rs at concrete requests.
use ai_model_downloader.Base.{nat_eq, string_eq, ◌≡◌, refl, List, [], ◌∷◌}
use ai_model_downloader.Core.State.{DownloadState, try_transition, PauseInfo}
use ai_model_downloader.Core.State.Graph.{run}

-- A task that is paused on its way; the first request is refused.
abbrev paused_once : List DownloadState
paused_once =
    DownloadState.paused ∷ DownloadState.connecting ∷ DownloadState.downloading
    ∷ DownloadState.paused ∷ DownloadState.resuming ∷ DownloadState.downloading
    ∷ DownloadState.verifying ∷ DownloadState.completed ∷ []

paused_once_completes : run DownloadState.pending paused_once ≡ DownloadState.completed
unfolding run try_transition
paused_once_completes = refl

abbrev five_minutes : PauseInfo
five_minutes = record { paused_at_secs = 1000; max_duration_secs = 300 }
