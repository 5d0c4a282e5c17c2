-- ===== src/Engine/Circuit/Examples.antt =====
-- Histories of the breakers of circuit_breaker.rs at concrete times.
use ai_model_downloader.Base.{nat_eq, string_eq, ◌≤◌, ◌≡◌, refl, false, some, List, [], ◌∷◌, arith}
use ai_model_downloader.Engine.Circuit.{CircuitBreaker, new, state}
use ai_model_downloader.Engine.Circuit.Trips.{
  Event, asks, fails, succeeds, run, state_after, state-run, ask_all, ask_all-le_one,
}

abbrev two_failures : List Event
two_failures = fails 3 ∷ succeeds ∷ fails 10 ∷ asks 11 ∷ fails 12 ∷ []

state-run_example : state (run (new 2 30) two_failures) 50 ≡ state_after 2 30 two_failures 50
state-run_example = state-run 2 30 two_failures 50 (omega arith)

-- Tripped at 12, with 30 seconds to wait.
abbrev tripped : CircuitBreaker
tripped = record {
  failure_count = 2;
  failure_threshold = 2;
  open_duration = 30;
  opened_at = some 12;
  half_open_probe_sent = false;
}

ask_all-le_one_example : (ask_all tripped (20 ∷ 45 ∷ 46 ∷ [])).1 ≤ 1
ask_all-le_one_example = ask_all-le_one tripped 12 (20 ∷ 45 ∷ 46 ∷ []) refl
