-- ===== src/Engine/Full.antt =====
-- crates/tachyon-engine/src/downloader.rs, execute_full_download: a file in one stream, where the
-- server has no ranges or the plan has one fragment at most. Its writes do not race the control
-- channel. The permit of the connection pool and the rate limiter only delay it.
mod Whole
mod Short
mod Resumed
mod Examples
use ai_model_downloader.Base.{
  lookup, insert, remove, Eq, nat_eq, string_eq, lookup-insert, lookup-remove, ℕ, zero, suc, ◌+◌,
  ◌-◌, ◌*◌, ◌/◌, ◌%◌, ◌^◌, ◌≤◌, ◌<◌, min, max, ◌≡◌, refl, sym, ap, ◌∙◌, subst, ◌≢◌, ◌↔◌, ◌⊎◌, inl,
  inr, Bool, true, false, not, ◌&&◌, ◌||◌, Option, none, some, List, [], ◌∷◌, ◌++◌, map, arith,
  dec_lt, ℕ_discrete, ltb, leb, ◌==◌, if◌then◌else◌, ltb→lt, lt→ltb, leb→le, le→leb, ==_iff, lt→leb,
  ne→==, Bool-cases, Option-cases, u8, u32, u64, u64_max, checked_add, length, get_elem?, set, take,
  drop, length-append, length-drop, length-set, All,
}
use ai_model_downloader.Core.Error.{DownloadError, DownloadResult, ok, err, panic, ◌>>=◌}
use ai_model_downloader.Engine.Async.{Async, returns, throws, panics, waits, exhausted, of_result}
use ai_model_downloader.Core.State.{DownloadState}
use ai_model_downloader.Engine.Control.{Channel, wait_control, watch_for_interrupt}
use ai_model_downloader.Engine.Storage.{AsyncStorage}
use ai_model_downloader.Engine.Fragment.{
  FragmentState, FragmentRecord, start_download, complete_download_fast,
}
use ai_model_downloader.Engine.Write.{interrupt}

-- One item of the stream, with the channel as it is when the item has come.
pub record Piece : Type 0 where
  pub control : Option Channel
  pub chunk : DownloadResult (List ℕ)

-- How the race between the request and the control channel ends.
pub data Answered : Type 0 where
  answered : DownloadResult (List Piece) → Answered
  stopped : Channel → Answered

-- What the download meets; `host` is how the URL parses, and the size is that of the metadata, if they
-- have one. The storage is initialised.
pub record Meets : Type 0 where
  pub control : Option Channel
  pub host : DownloadResult (Unit {0})
  pub answer : Answered
  pub expected_size : Option ℕ
  pub max_full_stream_bytes : ℕ
  pub elapsed : ℕ

-- The check before a write where the size is not known.
abbrev within : Option ℕ → ℕ → Option ℕ → DownloadResult (Unit {0})
within (some expected) limit attempted = ok tt
within none limit none = err DownloadError.config
within none limit (some attempted) = if ltb limit attempted then err DownloadError.config else ok tt

-- `self.fragments.first_mut()`.
abbrev start_first : FragmentState → FragmentRecord → FragmentRecord × DownloadResult (Unit {0})
start_first FragmentState.pending r = start_download r
start_first _ r = (r, ok tt)

abbrev then_complete :
    ℕ → ℕ → FragmentRecord × DownloadResult (Unit {0}) → FragmentRecord × DownloadResult (Unit {0})
then_complete pos elapsed (r, ok u) = complete_download_fast r pos elapsed
then_complete pos elapsed (r, err e) = (r, err e)
then_complete pos elapsed (r, panic) = (r, panic)

unfoldable pub complete_first :
    ℕ → ℕ → List FragmentRecord → List FragmentRecord × DownloadResult (Unit {0})
complete_first pos elapsed [] = ([], ok tt)
complete_first pos elapsed (r ∷ rs) =
    let (r', a) = then_complete pos elapsed (start_first r.state r) in (r' ∷ rs, a)

module _ (storage : AsyncStorage) where
  open storage use {State, write_at}

  -- What follows a write, `k` being the rest of the loop at its state and position.
  abbrev wrote : (State → ℕ → State × Async ℕ) → ℕ → State × DownloadResult ℕ → State × Async ℕ
  wrote k pos (s, ok n) = k s (u64 (pos + n))
  wrote k pos (s, err e) = (s, throws e)
  wrote k pos (s, panic) = (s, panics)

  abbrev checked : DownloadResult (Unit {0}) → State → State × Async ℕ → State × Async ℕ
  checked (ok u) s next = next
  checked (err e) s next = (s, throws e)
  checked panic s next = (s, panics)

  abbrev take_chunk :
      (State → ℕ → State × Async ℕ)
      → Option ℕ
      → ℕ
      → DownloadResult (List ℕ)
      → State
      → ℕ
      → State × Async ℕ
  take_chunk k expected limit (err e) s pos = (s, throws e)
  take_chunk k expected limit panic s pos = (s, panics)
  take_chunk k expected limit (ok chunk) s pos =
      checked (within expected limit (checked_add pos (length chunk))) s
        (wrote k pos (write_at s pos chunk))

  abbrev obey : Async (Unit {0}) → State → State × Async ℕ → State × Async ℕ
  obey (returns u) s next = next
  obey (throws e) s next = (s, throws e)
  obey panics s next = (s, panics)
  obey waits s next = (s, waits)
  obey exhausted s next = (s, exhausted)

  -- The loop over the stream; it answers the position it has reached.
  unfoldable pub full_loop : Option ℕ → ℕ → List Piece → State → ℕ → State × Async ℕ
  full_loop expected limit [] s pos = (s, returns pos)
  full_loop expected limit (p ∷ ps) s pos =
      obey (wait_control p.control) s
        (take_chunk (full_loop expected limit ps) expected limit p.chunk s pos)

  -- The task, as far as this function changes it: its storage, its fragments and its state.
  pub record Task : Type 0 where
    pub stored : State
    pub fragments : List FragmentRecord
    pub state : DownloadState

  abbrev done_with :
      Task → List FragmentRecord × DownloadResult (Unit {0}) → Task × Async (Unit {0})
  done_with t (fs, ok u) =
      (record t { fragments = fs; state = DownloadState.completed }, returns tt)
  done_with t (fs, err e) = (record t { fragments = fs }, throws e)
  done_with t (fs, panic) = (record t { fragments = fs }, panics)

  -- The size is compared, where it is known.
  abbrev sized : Option ℕ → ℕ → Bool
  sized none pos = true
  sized (some expected) pos = pos == expected

  abbrev looped : Meets → Task → State × Async ℕ → Task × Async (Unit {0})
  looped m t (s, returns pos) =
      let t' = record t { stored = s } in
      if sized m.expected_size pos
      then done_with t' (complete_first pos m.elapsed t.fragments)
      else (t', throws DownloadError.io)
  looped m t (s, throws e) = (record t { stored = s }, throws e)
  looped m t (s, panics) = (record t { stored = s }, panics)
  looped m t (s, waits) = (record t { stored = s }, waits)
  looped m t (s, exhausted) = (record t { stored = s }, exhausted)

  abbrev opened : Meets → Answered → Task → Task × Async (Unit {0})
  opened m (stopped c) t = (t, interrupt (watch_for_interrupt c))
  opened m (answered (err e)) t = (t, throws e)
  opened m (answered panic) t = (t, panics)
  opened m (answered (ok pieces)) t =
      looped m t (full_loop m.expected_size m.max_full_stream_bytes pieces t.stored 0)

  abbrev hosted : Meets → DownloadResult (Unit {0}) → Task → Task × Async (Unit {0})
  hosted m (ok u) t = opened m m.answer t
  hosted m (err e) t = (t, throws e)
  hosted m panic t = (t, panics)

  abbrev allowed : Meets → Async (Unit {0}) → Task → Task × Async (Unit {0})
  allowed m (returns u) t = hosted m m.host t
  allowed m (throws e) t = (t, throws e)
  allowed m panics t = (t, panics)
  allowed m waits t = (t, waits)
  allowed m exhausted t = (t, exhausted)

  unfoldable pub execute_full_download : Meets → Task → Task × Async (Unit {0})
  unfolding full_loop complete_first
  execute_full_download m t = allowed m (wait_control m.control) t
