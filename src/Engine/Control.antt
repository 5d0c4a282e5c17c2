-- ===== src/Engine/Control.antt =====
-- crates/tachyon-engine/src/downloader.rs, wait_control_rx and watch_for_interrupt: how a running
-- download obeys the control channel. What the channel does while a task waits on it is the list of
-- events given to the task; a task that waits longer than the list is still waiting.
mod Obeys
mod Examples
use ai_model_downloader.Base.{Option, none, some, List, [], ◌∷◌}
use ai_model_downloader.Core.Error.{DownloadError}
use ai_model_downloader.Core.State.{DownloadState}
use ai_model_downloader.Engine.Async.{Async, returns, throws, waits}

-- One `changed()` on the receiver: a new state, the pause timeout, or the sender is gone.
pub data Event : Type 0 where
  changed : DownloadState → Event
  timed_out closed : Event

-- The channel as a task finds it: the state it holds, and what happens next.
pub record Channel : Type 0 where
  pub state : DownloadState
  pub events : List Event

-- The decision on a state that was just read: an error, the pause, or to run.
pub data Order : Type 0 where
  stop : DownloadError → Order
  pause run_on : Order

unfoldable pub order_of : DownloadState → Order
order_of DownloadState.cancelled = Order.stop DownloadError.cancelled
order_of DownloadState.failed = Order.stop DownloadError.other
order_of DownloadState.paused = Order.pause
order_of _ = Order.run_on

-- The loop of `wait_control_rx`.
unfoldable pub wait_from : Order → List Event → Async (Unit {0})
unfolding order_of
wait_from (Order.stop e) events = throws e
wait_from Order.run_on events = returns tt
wait_from Order.pause [] = waits
wait_from Order.pause (changed s ∷ events) = wait_from (order_of s) events
wait_from Order.pause (timed_out ∷ events) = throws DownloadError.timeout
wait_from Order.pause (closed ∷ events) = throws DownloadError.other

unfoldable pub wait_control_rx : Channel → Async (Unit {0})
unfolding wait_from
wait_control_rx c = wait_from (order_of c.state) c.events

-- `wait_control`: no channel, nothing to obey.
unfoldable pub wait_control : Option Channel → Async (Unit {0})
unfolding wait_control_rx
wait_control none = returns tt
wait_control (some c) = wait_control_rx c

-- The loop of `watch_for_interrupt`. Outside a pause there is no timeout, and such an event does not
-- occur: it is passed over.
unfoldable pub watch_from : Order → List Event → Async (Unit {0})
unfolding order_of
watch_from (Order.stop e) events = throws e
watch_from Order.pause [] = waits
watch_from Order.pause (changed s ∷ events) = watch_from (order_of s) events
watch_from Order.pause (timed_out ∷ events) = throws DownloadError.timeout
watch_from Order.pause (closed ∷ events) = throws DownloadError.other
watch_from Order.run_on [] = waits
watch_from Order.run_on (changed s ∷ events) = watch_from (order_of s) events
watch_from Order.run_on (timed_out ∷ events) = watch_from Order.run_on events
watch_from Order.run_on (closed ∷ events) = throws DownloadError.other

unfoldable pub watch_for_interrupt : Channel → Async (Unit {0})
unfolding watch_from
watch_for_interrupt c = watch_from (order_of c.state) c.events
