-- ===== src/Engine/Retry/Examples.antt =====
-- downloader.rs: a task whose first attempt meets a server error.
use ai_model_downloader.Base.{nat_eq, string_eq, ℕ, zero, suc, ◌+◌, ◌*◌, ◌≡◌, none, List, [], ◌∷◌}
use ai_model_downloader.Core.Error.{DownloadError, ok, err}
use ai_model_downloader.Engine.Async.{returns}
use Prim.Native.String.{String}
use ai_model_downloader.Engine.Circuit.{SourceCircuitBreakers}
use ai_model_downloader.Engine.Storage.Memory.{memory}
use ai_model_downloader.Engine.Write.{written}
use ai_model_downloader.Engine.Stream.{Item, Attempt, Range, answered, Opening}
use ai_model_downloader.Engine.Retry.{Turn, started}
use ai_model_downloader.Engine.Retry.Filled.{Filled, task, TaskReports, task-Filled}

abbrev first_range : Range
first_range = record { index = 0; start = 0; end = 2 }

abbrev item_of : List ℕ → Item
item_of bytes = record { control = none; chunk = ok bytes; races = λ i. written }

abbrev meeting : Opening → Attempt
meeting o = record { control = none; opening = o; last_races = λ i. written; elapsed = 2 }

abbrev meets_then : ℕ → Attempt
meets_then zero = meeting (answered (err DownloadError.network))
meets_then (suc i) = meeting (answered (ok (item_of (7 ∷ 8 ∷ 9 ∷ []) ∷ [])))

abbrev alone : ℕ → Turn
alone i = record { before = λ b. b; asked_at = 10 * i; during = λ b. b; told_at = 10 * i + 1 }

abbrev no_breakers : SourceCircuitBreakers
no_breakers = record { breakers = []; failure_threshold = 5; open_duration = 30 }

abbrev no_bytes : ℕ → ℕ
no_bytes i = 0

abbrev mirror : String
mirror = "https://mirror.example/model.bin"

task-Filled_example :
    TaskReports memory mirror first_range 3 meets_then
      (started no_breakers no_bytes)
      (task memory mirror first_range 3 meets_then alone no_breakers no_bytes)
    × ((n d : ℕ)
        → (task memory mirror first_range 3 meets_then alone no_breakers no_bytes).1
          ≡ returns (n, d)
        → Filled memory mirror first_range 3 meets_then
            (task memory mirror first_range 3 meets_then alone no_breakers no_bytes).0.state
            n)
task-Filled_example = task-Filled memory mirror first_range 3 meets_then alone no_breakers no_bytes
