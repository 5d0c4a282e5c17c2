-- ===== src/Engine/Control/Obeys.antt =====
-- downloader.rs: what the control channel makes a task do.
use ai_model_downloader.Base.{nat_eq, string_eq, ◌≡◌, refl, ◌≢◌, ◌↔◌, List, [], ◌∷◌, arith}
use ai_model_downloader.Engine.Async.{returns}
use ai_model_downloader.Core.State.{DownloadState}
use ai_model_downloader.Engine.Control.{
  Event, changed, timed_out, closed, Channel, Order, wait_from, wait_control_rx, order_of,
  watch_from, watch_for_interrupt,
}

-- A channel that lets a task run: it shows a state other than cancelled, failed and paused, at once
-- or after pauses alone.
pub data LetsRun : DownloadState → List Event → Type 0 where
  running :
      {s : DownloadState} {events : List Event}
      → s ≢ DownloadState.cancelled
      → s ≢ DownloadState.failed
      → s ≢ DownloadState.paused
      → LetsRun s events
  resumed :
      {s t : DownloadState} {events : List Event}
      → s ≡ DownloadState.paused
      → LetsRun t events
      → LetsRun s (changed t ∷ events)

run_of_wait :
    (s : DownloadState) (o : Order) (events : List Event)
    → order_of s ≡ o
    → wait_from o events ≡ returns tt
    → LetsRun s events
unfolding wait_from order_of
run_of_wait s (Order.stop e) events p h = cc
run_of_wait s Order.run_on events p h =
    running (λ q. ground arith) (λ q. ground arith) (λ q. ground arith)
run_of_wait s Order.pause [] p h = cc
run_of_wait s Order.pause (changed t ∷ events) p h =
    resumed (ground arith) (run_of_wait t (order_of t) events refl h)
run_of_wait s Order.pause (timed_out ∷ events) p h = cc
run_of_wait s Order.pause (closed ∷ events) p h = cc

run_on_of :
    (s : DownloadState)
    → s ≢ DownloadState.cancelled
    → s ≢ DownloadState.failed
    → s ≢ DownloadState.paused
    → order_of s ≡ Order.run_on
unfolding order_of
run_on_of DownloadState.pending c f p = refl
run_on_of DownloadState.connecting c f p = refl
run_on_of DownloadState.downloading c f p = refl
run_on_of DownloadState.paused c f p = absurd (p refl)
run_on_of DownloadState.resuming c f p = refl
run_on_of DownloadState.verifying c f p = refl
run_on_of DownloadState.completed c f p = refl
run_on_of DownloadState.failed c f p = absurd (f refl)
run_on_of DownloadState.cancelled c f p = absurd (c refl)

wait_of_run :
    {s : DownloadState} {events : List Event}
    → LetsRun s events
    → wait_from (order_of s) events ≡ returns tt
unfolding wait_from order_of
wait_of_run (running {s = s} c f p) = rw (run_on_of s c f p) refl
wait_of_run (resumed {t = t} p r) = rw p (wait_of_run r)

-- Waiting on the control channel ends well exactly when the channel lets the task run; so a task
-- that is cancelled, failed or still paused never gets past it.
pub wait_control_rx_iff :
    (c : Channel) → (wait_control_rx c ≡ returns tt) ↔ LetsRun c.state c.events
unfolding wait_control_rx
wait_control_rx_iff c =
    (λ h. run_of_wait c.state (order_of c.state) c.events refl h, λ r. wait_of_run r)

watch_never_returns_from : (o : Order) (events : List Event) → watch_from o events ≢ returns tt
unfolding watch_from order_of
watch_never_returns_from (Order.stop e) events h = cc
watch_never_returns_from Order.pause [] h = cc
watch_never_returns_from Order.pause (changed s ∷ events) h =
    watch_never_returns_from (order_of s) events h
watch_never_returns_from Order.pause (timed_out ∷ events) h = cc
watch_never_returns_from Order.pause (closed ∷ events) h = cc
watch_never_returns_from Order.run_on [] h = cc
watch_never_returns_from Order.run_on (changed s ∷ events) h =
    watch_never_returns_from (order_of s) events h
watch_never_returns_from Order.run_on (timed_out ∷ events) h =
    watch_never_returns_from Order.run_on events h
watch_never_returns_from Order.run_on (closed ∷ events) h = cc

-- The watcher that races a download never wins without an error, so the line after its `?` in each
-- `select!` is never reached.
pub watch_never_returns : (c : Channel) → watch_for_interrupt c ≢ returns tt
unfolding watch_for_interrupt
watch_never_returns c = watch_never_returns_from (order_of c.state) c.events
