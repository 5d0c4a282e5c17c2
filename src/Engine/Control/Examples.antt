-- ===== src/Engine/Control/Examples.antt =====
-- wait_control_rx and watch_for_interrupt of downloader.rs on concrete channels.
use ai_model_downloader.Base.{nat_eq, string_eq, ◌≡◌, ◌↔◌, [], ◌∷◌}
use ai_model_downloader.Engine.Async.{returns}
use ai_model_downloader.Core.State.{DownloadState}
use ai_model_downloader.Engine.Control.{changed, closed, Channel, wait_control_rx}
use ai_model_downloader.Engine.Control.Obeys.{LetsRun, wait_control_rx_iff}

abbrev paused_then_on : Channel
paused_then_on = record {
  state = DownloadState.paused;
  events = changed DownloadState.paused ∷ changed DownloadState.resuming ∷ closed ∷ [];
}

wait_control_rx_iff_example :
    (wait_control_rx paused_then_on ≡ returns tt)
    ↔ LetsRun DownloadState.paused paused_then_on.events
wait_control_rx_iff_example = wait_control_rx_iff paused_then_on
