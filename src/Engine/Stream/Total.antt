-- ===== src/Engine/Stream/Total.antt =====
-- downloader.rs, download_single_fragment: the fuel that the writes of an attempt are given.
use ai_model_downloader.Base.{
  nat_eq, string_eq, ℕ, refl, ◌≢◌, inl, inr, Option, none, some, List, [], ◌∷◌, ◌++◌, ltb, leb,
  ◌==◌, Bool-cases, checked_add, length,
}
use ai_model_downloader.Core.Error.{DownloadResult, ok, err, panic}
use ai_model_downloader.Engine.Async.{Async, returns, throws, panics, waits, exhausted}
use ai_model_downloader.Engine.Control.{wait_control}
use ai_model_downloader.Engine.Storage.{AsyncStorage}
use ai_model_downloader.Engine.Write.{Race}
use ai_model_downloader.Engine.Write.Total.{wait_control_total, interrupt_total, write_all_at_total}
use ai_model_downloader.Engine.Stream.{
  Item, Opening, answered, stopped, Attempt, Range, Cursor, flush, flush_if, flushed, advance_to,
  take_chunk, obey, take_item, take_items, complete, last_flushed, finish, receive, open_stream,
  permitted, expected_len, download_single_fragment, write_batch_bytes,
}

module _ (storage : AsyncStorage) where
  open storage use {State}

  -- An outcome that is not for want of fuel.
  abbrev Total : {A : Type 0} → Cursor storage × Async A → Type 0
  Total r = r.1 ≢ exhausted

  flush-Total :
      (o : Option ℕ) (expected : ℕ) (races : ℕ → Race) (c : Cursor storage)
      → Total (flush_if storage o expected races c)
  flush-Total none expected races c = λ h. cc
  flush-Total (some attempted) expected races c = elim (Bool-cases (ltb expected attempted)) [
    | inl e ↦ rw e (λ h. cc)
    | inr e ↦ rw e (write_all_at_total storage races c.state c.pos c.write_buf)
  ]

  advance-Total :
      (o : Option ℕ) (index w : ℕ) (c : Cursor storage) → Total (advance_to storage o index w c)
  advance-Total none index w c h = cc
  advance-Total (some pos) index w c h = cc

  flushed-Total :
      (index : ℕ) (r : Cursor storage × Async ℕ) → Total r → Total (flushed storage index r)
  flushed-Total index (c, (returns w)) n = advance-Total (checked_add c.pos w) index w c
  flushed-Total index (c, (throws e)) n = λ h. cc
  flushed-Total index (c, panics) n = λ h. cc
  flushed-Total index (c, waits) n = λ h. cc
  flushed-Total index (c, exhausted) n = λ h. n refl

  chunk-Total :
      (threshold index expected : ℕ) (races : ℕ → Race) (r : DownloadResult (List ℕ))
      (c : Cursor storage)
      → Total (take_chunk storage threshold index expected races r c)
  unfolding flush
  chunk-Total threshold index expected races (err e) c = λ h. cc
  chunk-Total threshold index expected races panic c = λ h. cc
  chunk-Total threshold index expected races (ok chunk) c =
      elim (Bool-cases (leb threshold (length (c.write_buf ++ chunk)))) [
        | inl e ↦ rw e (flushed-Total index _ (flush-Total _ expected races _))
        | inr e ↦ rw e (λ h. cc)
      ]

  obey-Total :
      (x : Async (Unit {0})) (c : Cursor storage) (next : Cursor storage × Async (Unit {0}))
      → x ≢ exhausted
      → Total next
      → Total (obey storage x c next)
  obey-Total (returns u) c next n t = t
  obey-Total (throws e) c next n t = λ h. cc
  obey-Total panics c next n t = λ h. cc
  obey-Total waits c next n t = λ h. cc
  obey-Total exhausted c next n t = λ h. n refl

  items-Total :
      (threshold index expected : ℕ) (items : List Item) (c : Cursor storage)
      → Total (take_items storage threshold index expected items c)
  unfolding take_items take_item
  items-Total threshold index expected [] c = λ h. cc
  items-Total threshold index expected (item ∷ items) c =
      obey-Total _ _ _
        (obey-Total (wait_control item.control) c _ (wait_control_total item.control)
          (chunk-Total threshold index expected item.races item.chunk c))
        (items-Total threshold index expected items _)

  complete-Total :
      (index expected elapsed : ℕ) (c : Cursor storage)
      → Total (complete storage index expected elapsed c)
  complete-Total index expected elapsed c = elim (Bool-cases (c.total_written == expected)) [
    | inl e ↦ rw e (λ h. cc)
    | inr e ↦ rw e (λ h. cc)
  ]

  last-Total :
      (index expected elapsed : ℕ) (r : Cursor storage × Async ℕ)
      → Total r
      → Total (last_flushed storage index expected elapsed r)
  last-Total index expected elapsed (c, (returns w)) n = complete-Total index expected elapsed _
  last-Total index expected elapsed (c, (throws e)) n = λ h. cc
  last-Total index expected elapsed (c, panics) n = λ h. cc
  last-Total index expected elapsed (c, waits) n = λ h. cc
  last-Total index expected elapsed (c, exhausted) n = λ h. n refl

  finish-Total :
      (index expected : ℕ) (races : ℕ → Race) (elapsed : ℕ) (r : Cursor storage × Async (Unit {0}))
      → Total r
      → Total (finish storage index expected races elapsed r)
  unfolding flush
  finish-Total index expected races elapsed (c, (returns u)) n =
      elim (Bool-cases (length c.write_buf == 0)) [
        | inl e ↦ rw e (complete-Total index expected elapsed c)
        | inr e ↦ rw e (
            last-Total index expected elapsed _
              (flush-Total (checked_add c.total_written (length c.write_buf)) expected races c))
      ]
  finish-Total index expected races elapsed (c, (throws e)) n = λ h. cc
  finish-Total index expected races elapsed (c, panics) n = λ h. cc
  finish-Total index expected races elapsed (c, waits) n = λ h. cc
  finish-Total index expected races elapsed (c, exhausted) n = λ h. n refl

  receive-Total :
      (range : Range) (a : Attempt) (o : Option ℕ) (items : List Item) (c : Cursor storage)
      → Total (receive storage range a o items c)
  receive-Total range a none items c = λ h. cc
  receive-Total range a (some expected) items c =
      finish-Total range.index expected a.last_races a.elapsed
        (take_items storage write_batch_bytes range.index expected items c)
        (items-Total write_batch_bytes range.index expected items c)

  open-Total :
      (range : Range) (a : Attempt) (o : Opening) (c : Cursor storage)
      → Total (open_stream storage range a o c)
  open-Total range a (stopped channel) c = interrupt_total channel
  open-Total range a (answered (err e)) c = λ h. cc
  open-Total range a (answered panic) c = λ h. cc
  open-Total range a (answered (ok items)) c = receive-Total range a (expected_len range) items c

  permitted-Total :
      (range : Range) (a : Attempt) (x : Async (Unit {0})) (c : Cursor storage)
      → x ≢ exhausted
      → Total (permitted storage range a x c)
  permitted-Total range a (returns u) c n = open-Total range a a.opening c
  permitted-Total range a (throws e) c n = λ h. cc
  permitted-Total range a panics c n = λ h. cc
  permitted-Total range a waits c n = λ h. cc
  permitted-Total range a exhausted c n = λ h. n refl

  pub download_single_fragment-Total :
      (range : Range) (a : Attempt) (s : State) → Total (download_single_fragment storage range a s)
  unfolding download_single_fragment
  download_single_fragment-Total range a s =
      permitted-Total range a (wait_control a.control) _ (wait_control_total a.control)
