-- ===== src/Engine/Retry/Filled.antt =====
-- downloader.rs: the task of a fragment, with download_single_fragment as its attempts.
use ai_model_downloader.Core.Error.{ok}
use ai_model_downloader.Base.{nat_eq, string_eq, ℕ, ◌+◌, ◌≡◌, ap, subst, ◌≢◌, List, length}
use ai_model_downloader.Engine.Async.{Async, returns, exhausted}
use Prim.Native.String.{String}
use ai_model_downloader.Engine.Circuit.{SourceCircuitBreakers}
use ai_model_downloader.Engine.Storage.{AsyncStorage, Holds}
use ai_model_downloader.Engine.Stream.{Attempt, Range, download_single_fragment, answered, Item}
use ai_model_downloader.Engine.Stream.Batch.{received}
use ai_model_downloader.Engine.Stream.Filled.{download_single_fragment-Fills}
use ai_model_downloader.Engine.Stream.Total.{download_single_fragment-Total}
use ai_model_downloader.Engine.Retry.{Turn, Log, fragment_task, started}
use ai_model_downloader.Engine.Retry.Bounds.{Reports}
use ai_model_downloader.Engine.Retry.Result.{fragment_task-Reports}

module _ (storage : AsyncStorage) (url : String) (range : Range) (max_retries : ℕ)
    (meets : ℕ → Attempt) where
  open storage use {State, byte}

  -- One attempt, which meets what `meets` says; its cursor is dropped with it.
  unfoldable pub download : ℕ → State → State × Async (ℕ × ℕ)
  download i s = let (c, r) = download_single_fragment storage range (meets i) s in (c.state, r)

  abbrev pub task : (ℕ → Turn) → SourceCircuitBreakers → State → Log State × Async (ℕ × ℕ)
  task turns breakers s = fragment_task url range.index max_retries turns download breakers s

  download_total : (i : ℕ) (s : State) → (download i s).1 ≢ exhausted
  unfolding download
  download_total i s = download_single_fragment-Total storage range (meets i) s

  -- What a task that answers `n` has done: the stream of its last attempt had as many bytes as the
  -- range, and the file holds them there.
  pub record Filled (file : ℕ → ℕ) (n : ℕ) : Type 0 where
    pub attempt : ℕ
    pub items : List Item
    pub offered : (meets attempt).opening ≡ answered (ok items)
    pub whole_range : range.start + n ≡ range.end + 1
    pub counted : length (received items) ≡ n
    pub in_file : Holds file range.start (received items)

  fills-Filled :
      (i : ℕ) (s s' : State) (n d : ℕ) → download i s ≡ (s', returns (n, d)) → Filled (byte s') n
  unfolding download
  fills-Filled i s s' n d h =
      let (items, offered, whole, counted, held, _) =
        (download_single_fragment-Fills storage range (meets i) s).filled n d (ap (λ p. p.1) h) in
      record {
        attempt = i;
        items = items;
        offered = offered;
        whole_range = whole;
        counted = counted;
        in_file = subst (λ x. Holds (byte x) range.start (received items)) (ap (λ p. p.0) h) held;
      }

  abbrev pub TaskReports : Log State → Log State × Async (ℕ × ℕ) → Type 0
  TaskReports l r = Reports download max_retries l r

  -- Whatever the servers send, the storage, the control channel, the other tasks and the clock do:
  -- the task of a fragment makes at most `max_retries + 1` attempts and `max_retries` pauses of at
  -- most 1024 seconds, retries only errors that are worth it, and is never out of fuel; and if it
  -- returns, the file holds the bytes of one server answer, exactly as many as the range has, in the
  -- range.
  pub task-Filled :
      (turns : ℕ → Turn) (breakers : SourceCircuitBreakers) (s : State)
      → TaskReports (started breakers s) (task turns breakers s)
        × ((n d : ℕ)
            → (task turns breakers s).1 ≡ returns (n, d)
            → Filled (byte (task turns breakers s).0.state) n)
  task-Filled turns breakers s =
      let reports =
        fragment_task-Reports download url range.index max_retries download_total turns breakers
          s in
      (reports, λ n d h. let (i, s', e) = reports.origin (n, d) h in fills-Filled i s' _ n d e)
