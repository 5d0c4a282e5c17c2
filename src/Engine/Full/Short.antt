-- ===== src/Engine/Full/Short.antt =====
-- execute_full_download of downloader.rs and a short write.
use ai_model_downloader.Base.{
  nat_eq, string_eq, ℕ, ◌+◌, ◌≤◌, ◌<◌, ◌≡◌, refl, none, List, [], ◌∷◌, arith, le→leb, u64_max,
  checked_add, length,
}
use ai_model_downloader.Core.Error.{ok}
use ai_model_downloader.Engine.Async.{returns}
use ai_model_downloader.Core.State.{DownloadState}
use ai_model_downloader.Engine.Control.{wait_control}
use ai_model_downloader.Engine.Storage.{AsyncStorage}
use ai_model_downloader.Engine.Full.{answered, Meets, Task, within, execute_full_download}

module _ (storage : AsyncStorage) (t : Task storage) (chunk : List ℕ) (limit n : ℕ) where
  open storage use {State, write_at}

  -- A stream of one chunk and no size, with no control channel.
  abbrev pub one_chunk : Meets
  one_chunk = record {
    control = none;
    host = ok tt;
    answer = answered (ok (record { control = none; chunk = ok chunk } ∷ []));
    expected_size = none;
    max_full_stream_bytes = limit;
    elapsed = 1;
  }

  -- Where the size is not known, a chunk that is written short is lost from there on, and the download
  -- is reported as completed all the same: however few bytes of a stream of one chunk, within the limit
  -- and below 2^64, the storage has taken, a task without fragments and without a control channel ends
  -- completed, in the state that this one write left.
  pub execute_full_download_short :
      length chunk ≤ limit
      → length chunk ≤ u64_max
      → n < length chunk
      → (write_at t.stored 0 chunk).1 ≡ ok n
      → t.fragments ≡ []
      → let (t', r) = execute_full_download storage one_chunk t in
        (r ≡ returns tt)
        × (t'.state ≡ DownloadState.completed)
        × (t'.stored ≡ (write_at t.stored 0 chunk).0)
  unfolding execute_full_download wait_control
  execute_full_download_short l u h w f = rw (within_limit, w, f) (refl, refl, refl)
    where
      within_limit : within none limit (checked_add 0 (length chunk)) ≡ ok tt
      within_limit = rw (le→leb (0 + length chunk) u64_max (omega arith)) (ground arith)
