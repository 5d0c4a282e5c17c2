-- ===== src/Core/State/Graph.antt =====
-- types.rs: paths through the task life cycle, and the pause timer.
use mathlib.Core.List.{Memᴰ}
use ai_model_downloader.Base.{
  ℕ, ◌≤◌, ◌≡◌, refl, sym, ◌↔◌, ◌⊎◌, inl, inr, Bool, true, false, List, [], ◌∷◌, arith,
}
use ai_model_downloader.Core.Error.{DownloadResult, ok, err, panic}
use ai_model_downloader.Core.State.{
  DownloadState, try_transition, PauseInfo, is_expired, remaining_secs,
}

-- A caller that keeps its state where a transition is refused.
abbrev pub settle : DownloadState → DownloadResult DownloadState → DownloadState
settle s (ok t) = t
settle s (err e) = s
settle s panic = s

unfoldable pub run : DownloadState → List DownloadState → DownloadState
run s [] = s
run s (t ∷ ts) = run (settle s (try_transition s t)) ts

-- A set of states that is entered through `gate` only.
abbrev Gate : (DownloadState → Bool) → DownloadState → Type 0
Gate inside gate =
    (s t : DownloadState)
    → inside s ≡ false
    → (t ≡ gate) ⊎ (inside (settle s (try_transition s t)) ≡ false)

run_needs_gate :
    (inside : DownloadState → Bool) (gate s : DownloadState) (ts : List DownloadState)
    → Gate inside gate
    → inside s ≡ false
    → inside (run s ts) ≡ true
    → Memᴰ gate ts
unfolding run
run_needs_gate inside gate s [] g h l = cc
run_needs_gate inside gate s (t ∷ ts) g h l = elim (g s t h) [
  | inl p ↦ Memᴰ.head (sym p)
  | inr q ↦ Memᴰ.tail (run_needs_gate inside gate (settle s (try_transition s t)) ts g q l)
]

abbrev is_connected : DownloadState → Bool
is_connected DownloadState.pending = false
is_connected DownloadState.failed = false
is_connected DownloadState.cancelled = false
is_connected _ = true

abbrev is_started : DownloadState → Bool
is_started DownloadState.downloading = true
is_started DownloadState.paused = true
is_started DownloadState.resuming = true
is_started DownloadState.verifying = true
is_started DownloadState.completed = true
is_started _ = false

abbrev is_checked : DownloadState → Bool
is_checked DownloadState.verifying = true
is_checked DownloadState.completed = true
is_checked _ = false

connected-Gate : Gate is_connected DownloadState.connecting
unfolding try_transition
connected-Gate s t h = ground arith

-- `paused` and `resuming` are entered from states that are inside.
started-Gate : Gate is_started DownloadState.downloading
unfolding try_transition
started-Gate s t h = ground arith

checked-Gate : Gate is_checked DownloadState.verifying
unfolding try_transition
checked-Gate s t h = ground arith

-- A task that starts `pending` and is `completed` after some requests, refused ones ignored, was
-- asked to go through `connecting`, `downloading` and `verifying`.
pub completed_passes_all :
    (ts : List DownloadState)
    → run DownloadState.pending ts ≡ DownloadState.completed
    → Memᴰ DownloadState.connecting ts
      × Memᴰ DownloadState.downloading ts
      × Memᴰ DownloadState.verifying ts
completed_passes_all ts h = (
  run_needs_gate is_connected _ DownloadState.pending ts connected-Gate refl (rw h refl),
  run_needs_gate is_started _ DownloadState.pending ts started-Gate refl (rw h refl),
  run_needs_gate is_checked _ DownloadState.pending ts checked-Gate refl (rw h refl),
)

abbrev from_pending : List DownloadState
from_pending =
    DownloadState.connecting ∷ DownloadState.downloading ∷ DownloadState.verifying
    ∷ DownloadState.completed ∷ []

-- The requests that finish a task.
unfoldable pub finish : DownloadState → List DownloadState
finish DownloadState.pending = from_pending
finish DownloadState.connecting =
    DownloadState.downloading ∷ DownloadState.verifying ∷ DownloadState.completed ∷ []
finish DownloadState.downloading = DownloadState.verifying ∷ DownloadState.completed ∷ []
finish DownloadState.paused =
    DownloadState.resuming ∷ DownloadState.downloading ∷ DownloadState.verifying
    ∷ DownloadState.completed ∷ []
finish DownloadState.resuming =
    DownloadState.downloading ∷ DownloadState.verifying ∷ DownloadState.completed ∷ []
finish DownloadState.verifying = DownloadState.completed ∷ []
finish DownloadState.completed = []
finish DownloadState.failed = DownloadState.pending ∷ from_pending
finish DownloadState.cancelled = DownloadState.pending ∷ from_pending

run_completed : (ts : List DownloadState) → run DownloadState.completed ts ≡ DownloadState.completed
unfolding run try_transition
run_completed [] = refl
run_completed (t ∷ ts) = run_completed ts

run-finish : (s : DownloadState) → run s (finish s) ≡ DownloadState.completed
unfolding run finish try_transition
run-finish DownloadState.completed = refl
run-finish _ = refl

-- From every state some requests lead to `completed`, also from `failed` and `cancelled`; and no
-- request leads out of `completed`.
pub completed_reachable_final :
    (s : DownloadState) (ts : List DownloadState)
    → (run s (finish s) ≡ DownloadState.completed)
      × (run DownloadState.completed ts ≡ DownloadState.completed)
completed_reachable_final s ts = (run-finish s, run_completed ts)

-- A pause has expired exactly when no time is left to it, and an expired one stays expired.
pub is_expired_iff_remaining :
    (p : PauseInfo) (now later : ℕ)
    → now ≤ later
    → ((is_expired p now ≡ true) ↔ (remaining_secs p now ≡ 0))
      × (remaining_secs p later ≤ remaining_secs p now)
unfolding is_expired remaining_secs
is_expired_iff_remaining p now later h = (ground arith, omega arith)
