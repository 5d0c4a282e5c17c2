-- ===== src/Engine/Full/Examples.antt =====
-- execute_full_download of downloader.rs on concrete bytes.
use ai_model_downloader.Engine.Control.{wait_control}
use ai_model_downloader.Base.{
  nat_eq, string_eq, ℕ, ◌≡◌, refl, sym, ◌≢◌, none, some, List, [], ◌∷◌, arith,
}
use ai_model_downloader.Core.Error.{ok}
use ai_model_downloader.Engine.Async.{returns}
use ai_model_downloader.Core.State.{DownloadState}
use ai_model_downloader.Engine.Storage.Memory.{memory, whole_memory, put, accepted}
use ai_model_downloader.Engine.Full.{Piece, answered, Meets, Task, execute_full_download}
use ai_model_downloader.Engine.Full.Whole.{WritesAll, HasAll, execute_full_download-HasAll}
use ai_model_downloader.Engine.Fragment.{FragmentRecord, FragmentState}
use ai_model_downloader.Engine.Full.Resumed.{execute_full_download_resumed}
use ai_model_downloader.Engine.Full.Short.{one_chunk, execute_full_download_short}

abbrev nothing : ℕ → ℕ
nothing i = 0

abbrev piece_of : List ℕ → Piece
piece_of bytes = record { control = none; chunk = ok bytes }

abbrev two_pieces : List Piece
two_pieces = piece_of (1 ∷ 2 ∷ []) ∷ piece_of (3 ∷ []) ∷ []

abbrev known_size : Meets
known_size = record {
  control = none;
  host = ok tt;
  answer = answered (ok two_pieces);
  expected_size = some 3;
  max_full_stream_bytes = 100;
  elapsed = 4;
}

whole_memory-WritesAll : WritesAll whole_memory
whole_memory-WritesAll s pos chunk n h = sym (accepted h)

abbrev fresh : Task whole_memory
fresh = record { stored = nothing; fragments = []; state = DownloadState.downloading }

returns_fresh : (execute_full_download whole_memory known_size fresh).1 ≡ returns tt
unfolding execute_full_download wait_control
returns_fresh = refl

execute_full_download-HasAll_example :
    HasAll whole_memory known_size
      (1 ∷ 2 ∷ 3 ∷ [])
      (execute_full_download whole_memory known_size fresh).0
execute_full_download-HasAll_example =
    execute_full_download-HasAll whole_memory known_size two_pieces fresh whole_memory-WritesAll
      refl (omega arith) returns_fresh

abbrev five_bytes : List ℕ
five_bytes = 5 ∷ 6 ∷ 7 ∷ 8 ∷ 9 ∷ []

abbrev empty_task : Task memory
empty_task = record { stored = nothing; fragments = []; state = DownloadState.downloading }

execute_full_download_short_example :
    ((execute_full_download memory (one_chunk memory empty_task five_bytes 100 3) empty_task).1
      ≡ returns tt)
    × ((execute_full_download memory
          (one_chunk memory empty_task five_bytes 100 3)
          empty_task).0.state
        ≡ DownloadState.completed)
    × ((execute_full_download memory
          (one_chunk memory empty_task five_bytes 100 3)
          empty_task).0.stored
        ≡ put nothing 0 (5 ∷ 6 ∷ 7 ∷ []))
execute_full_download_short_example =
    execute_full_download_short memory empty_task five_bytes 100 3 (omega arith) (omega arith)
      (omega arith) refl refl

abbrev done_before : FragmentRecord
done_before = record {
  info = record { index = 0; start = 0; end = 2; size = 3; downloaded = 3; hash = none };
  state = FragmentState.done;
  retry_count = 0;
  max_retries = 3;
  last_duration = some 0;
}

abbrev resumed_task : Task whole_memory
resumed_task = record {
  stored = nothing;
  fragments = done_before ∷ [];
  state = DownloadState.downloading;
}

execute_full_download_resumed_example :
    (execute_full_download whole_memory known_size resumed_task).1 ≢ returns tt
execute_full_download_resumed_example =
    execute_full_download_resumed whole_memory known_size resumed_task done_before [] refl refl
