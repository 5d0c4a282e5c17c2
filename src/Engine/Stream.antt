-- ===== src/Engine/Stream.antt =====
-- crates/tachyon-engine/src/downloader.rs, download_single_fragment: one attempt at one fragment. The
-- bytes arrive in chunks, are collected, and are written in batches. What the attempt meets (the
-- control channel, the stream of the server, the races of the writes, the time) is given to it. The
-- permit of the connection pool and the rate limiter only delay the attempt.
pub mod Batch
mod Loop
pub mod Filled
pub mod Total
mod Examples
use ai_model_downloader.Base.{
  lookup, insert, remove, Eq, nat_eq, string_eq, lookup-insert, lookup-remove, ℕ, zero, suc, ◌+◌,
  ◌-◌, ◌*◌, ◌/◌, ◌%◌, ◌^◌, ◌≤◌, ◌<◌, min, max, ◌≡◌, refl, sym, ap, ◌∙◌, subst, ◌≢◌, ◌↔◌, ◌⊎◌, inl,
  inr, Bool, true, false, not, ◌&&◌, ◌||◌, Option, none, some, List, [], ◌∷◌, ◌++◌, map, arith,
  dec_lt, ℕ_discrete, ltb, leb, ◌==◌, if◌then◌else◌, ltb→lt, lt→ltb, leb→le, le→leb, ==_iff, ne→==,
  Bool-cases, Option-cases, u8, u32, u64, u64_max, checked_add, length, get_elem?, set, take, drop,
  length-append, length-drop, length-set, All,
}
use ai_model_downloader.Core.Error.{DownloadError, DownloadResult, ok, err, panic, ◌>>=◌}
use ai_model_downloader.Engine.Async.{Async, returns, throws, panics, waits, exhausted, of_result}
use ai_model_downloader.Engine.Control.{Channel, wait_control, watch_for_interrupt}
use ai_model_downloader.Engine.Storage.{AsyncStorage}
use ai_model_downloader.Engine.Write.{Race, interrupt, write_all_at}

pub record FragmentProgress : Type 0 where
  pub fragment_index : ℕ
  pub completed : Bool
  pub fragment_downloaded : ℕ

abbrev pub write_batch_bytes : ℕ
write_batch_bytes = 256 * 1024

abbrev pub progress_report_chunk_interval : ℕ
progress_report_chunk_interval = 5

-- One item of the stream, with the channel as it is when the item has come.
pub record Item : Type 0 where
  pub control : Option Channel
  pub chunk : DownloadResult (List ℕ)
  pub races : ℕ → Race

-- How the race between the request and the control channel ends.
pub data Opening : Type 0 where
  answered : DownloadResult (List Item) → Opening
  stopped : Channel → Opening

pub record Attempt : Type 0 where
  pub control : Option Channel
  pub opening : Opening
  pub last_races : ℕ → Race
  pub elapsed : ℕ

pub record Range : Type 0 where
  pub index : ℕ
  pub start : ℕ
  pub end : ℕ

-- `end.checked_sub(start)`, then `checked_add(1)`.
unfoldable pub expected_len : Range → Option ℕ
expected_len r = if leb r.start r.end then checked_add (r.end - r.start) 1 else none

module _ (storage : AsyncStorage) where
  open storage use {State}

  -- The variables of the loop, and the progress messages sent so far, the last one first.
  pub record Cursor : Type 0 where
    pub state : State
    pub pos : ℕ
    pub total_written : ℕ
    pub chunk_count : ℕ
    pub write_buf : List ℕ
    pub sent : List FragmentProgress

  abbrev written_to : Cursor → State × Async ℕ → Cursor × Async ℕ
  written_to c (s, r) = (record c { state = s; write_buf = [] }, r)

  abbrev flush_if : Option ℕ → ℕ → (ℕ → Race) → Cursor → Cursor × Async ℕ
  flush_if none expected races c = (c, throws DownloadError.fragment)
  flush_if (some attempted) expected races c =
      if ltb expected attempted
      then (c, throws DownloadError.fragment)
      else written_to c (write_all_at storage races c.state c.pos c.write_buf)

  -- The batch that is collected, checked against the length of the fragment, is written.
  unfoldable pub flush : ℕ → (ℕ → Race) → Cursor → Cursor × Async ℕ
  flush expected races c =
      flush_if (checked_add c.total_written (length c.write_buf)) expected races c

  abbrev report : ℕ → Cursor → Cursor
  report index c =
      if c.chunk_count % progress_report_chunk_interval == 0
      then record c {
        sent =
            record {
              fragment_index = index;
              completed = false;
              fragment_downloaded = c.total_written;
            }
            ∷ c.sent;
      }
      else c

  abbrev advance_to : Option ℕ → ℕ → ℕ → Cursor → Cursor × Async (Unit {0})
  advance_to none index w c = (c, throws DownloadError.fragment)
  advance_to (some pos) index w c =
      (report index (record c { pos = pos; total_written = c.total_written + w }), returns tt)

  abbrev flushed : ℕ → Cursor × Async ℕ → Cursor × Async (Unit {0})
  flushed index (c, returns w) = advance_to (checked_add c.pos w) index w c
  flushed index (c, throws e) = (c, throws e)
  flushed index (c, panics) = (c, panics)
  flushed index (c, waits) = (c, waits)
  flushed index (c, exhausted) = (c, exhausted)

  -- A chunk has come; a batch is flushed once it has `threshold` bytes.
  abbrev take_chunk :
      ℕ → ℕ → ℕ → (ℕ → Race) → DownloadResult (List ℕ) → Cursor → Cursor × Async (Unit {0})
  take_chunk threshold index expected races (err e) c = (c, throws e)
  take_chunk threshold index expected races panic c = (c, panics)
  take_chunk threshold index expected races (ok chunk) c =
      let c' = record c {
        write_buf = c.write_buf ++ chunk;
        chunk_count = u64 (c.chunk_count + 1);
      } in
      if leb threshold (length c'.write_buf)
      then flushed index (flush expected races c')
      else (c', returns tt)

  abbrev obey : Async (Unit {0}) → Cursor → Cursor × Async (Unit {0}) → Cursor × Async (Unit {0})
  obey (returns u) c next = next
  obey (throws e) c next = (c, throws e)
  obey panics c next = (c, panics)
  obey waits c next = (c, waits)
  obey exhausted c next = (c, exhausted)

  unfoldable pub take_item : ℕ → ℕ → ℕ → Item → Cursor → Cursor × Async (Unit {0})
  take_item threshold index expected item c =
      obey (wait_control item.control) c
        (take_chunk threshold index expected item.races item.chunk c)

  -- The loop over the stream.
  unfoldable pub take_items : ℕ → ℕ → ℕ → List Item → Cursor → Cursor × Async (Unit {0})
  take_items threshold index expected [] c = (c, returns tt)
  take_items threshold index expected (item ∷ items) c =
      let (c', r) = take_item threshold index expected item c in
      let rest = take_items threshold index expected items c' in obey r c' rest

  abbrev complete : ℕ → ℕ → ℕ → Cursor → Cursor × Async (ℕ × ℕ)
  complete index expected elapsed c =
      if c.total_written == expected
      then (
        record c {
          sent =
              record {
                fragment_index = index;
                completed = true;
                fragment_downloaded = c.total_written;
              }
              ∷ c.sent;
        },
        returns (c.total_written, elapsed),
      )
      else (c, throws DownloadError.fragment)

  abbrev last_flushed : ℕ → ℕ → ℕ → Cursor × Async ℕ → Cursor × Async (ℕ × ℕ)
  last_flushed index expected elapsed (c, returns w) =
      complete index expected elapsed (record c { total_written = c.total_written + w })
  last_flushed index expected elapsed (c, throws e) = (c, throws e)
  last_flushed index expected elapsed (c, panics) = (c, panics)
  last_flushed index expected elapsed (c, waits) = (c, waits)
  last_flushed index expected elapsed (c, exhausted) = (c, exhausted)

  -- What is left after the loop is flushed, and the total is compared with the length.
  abbrev finish : ℕ → ℕ → (ℕ → Race) → ℕ → Cursor × Async (Unit {0}) → Cursor × Async (ℕ × ℕ)
  finish index expected races elapsed (c, returns u) =
      if length c.write_buf == 0
      then complete index expected elapsed c
      else last_flushed index expected elapsed (flush expected races c)
  finish index expected races elapsed (c, throws e) = (c, throws e)
  finish index expected races elapsed (c, panics) = (c, panics)
  finish index expected races elapsed (c, waits) = (c, waits)
  finish index expected races elapsed (c, exhausted) = (c, exhausted)

  unfoldable pub start_at : State → ℕ → Cursor
  start_at s pos = record {
    state = s;
    pos = pos;
    total_written = 0;
    chunk_count = 0;
    write_buf = [];
    sent = [];
  }

  abbrev receive : Range → Attempt → Option ℕ → List Item → Cursor → Cursor × Async (ℕ × ℕ)
  receive range a none items c = (c, throws DownloadError.fragment)
  receive range a (some expected) items c =
      finish range.index expected a.last_races a.elapsed
        (take_items write_batch_bytes range.index expected items c)

  abbrev open_stream : Range → Attempt → Opening → Cursor → Cursor × Async (ℕ × ℕ)
  open_stream range a (stopped channel) c = (c, interrupt (watch_for_interrupt channel))
  open_stream range a (answered (err e)) c = (c, throws e)
  open_stream range a (answered panic) c = (c, panics)
  open_stream range a (answered (ok items)) c = receive range a (expected_len range) items c

  abbrev permitted : Range → Attempt → Async (Unit {0}) → Cursor → Cursor × Async (ℕ × ℕ)
  permitted range a (returns u) c = open_stream range a a.opening c
  permitted range a (throws e) c = (c, throws e)
  permitted range a panics c = (c, panics)
  permitted range a waits c = (c, waits)
  permitted range a exhausted c = (c, exhausted)

  unfoldable pub download_single_fragment : Range → Attempt → State → Cursor × Async (ℕ × ℕ)
  unfolding take_items start_at
  download_single_fragment range a s =
      permitted range a (wait_control a.control) (start_at s range.start)
