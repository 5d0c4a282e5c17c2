-- ===== src/Engine/Stream/Loop.antt =====
-- downloader.rs, download_single_fragment: the loop over the stream and the invariant of its batches.
use ai_model_downloader.Base.{
  nat_eq, string_eq, ℕ, ◌+◌, ◌%◌, ◌≡◌, refl, ap, ◌∙◌, ◌≢◌, inl, inr, List, [], ◌∷◌, ◌++◌, leb, ◌==◌,
  Bool-cases, u64, u64_max, length,
}
use ai_model_downloader.Core.Error.{DownloadError, DownloadResult, ok, err, panic}
use ai_model_downloader.Engine.Async.{Async, returns, throws, panics, waits, exhausted}
use mathlib.Core.List.{append_assoc, append-nil}
use ai_model_downloader.Engine.Control.{wait_control}
use ai_model_downloader.Engine.Storage.{AsyncStorage}
use ai_model_downloader.Engine.Write.{Race}
use ai_model_downloader.Engine.Stream.{
  Item, Cursor, take_item, take_items, obey, report, flushed, take_chunk,
}
use ai_model_downloader.Engine.Stream.Batch.{
  bytes_of, received, Kept, Inv, Steps, Flushed, flush-Flushed,
}

module _ (storage : AsyncStorage) (s₀ : storage.State) (start expected : ℕ) where
  open storage use {State, byte}

  Inv-report :
      (bytes : List ℕ) (index : ℕ) (c : Cursor storage)
      → Inv storage s₀ start expected bytes c
      → Inv storage s₀ start expected bytes (report storage index c)
  Inv-report bytes index c v = elim (Bool-cases (c.chunk_count % 5 == 0)) [
    | inl e ↦ rw e (record {
      written = v.written;
      split = v.split;
      here = v.here;
      total = v.total;
      within = v.within;
      holds = v.holds;
      kept = v.kept;
    })
    | inr e ↦ rw e v
  ]

  stopped-Steps :
      (bytes : List ℕ) (c : Cursor storage) (x : Async (Unit {0}))
      → Kept storage s₀ start expected c
      → ((u : Unit {0}) → x ≢ returns u)
      → Steps storage s₀ start expected bytes (c, x)
  stopped-Steps bytes c x k never = record { kept = k; going = λ u h. absurd (never u h) }

  flushed-Steps :
      (bytes : List ℕ) (index : ℕ) (c : Cursor storage) (x : Async ℕ)
      → Flushed storage s₀ start expected bytes (c, x)
      → Steps storage s₀ start expected bytes (flushed storage index (c, x))
  flushed-Steps bytes index c (throws e) f = stopped-Steps bytes c _ f.kept (λ u h. cc)
  flushed-Steps bytes index c panics f = stopped-Steps bytes c _ f.kept (λ u h. cc)
  flushed-Steps bytes index c waits f = stopped-Steps bytes c _ f.kept (λ u h. cc)
  flushed-Steps bytes index c exhausted f = stopped-Steps bytes c _ f.kept (λ u h. cc)
  flushed-Steps bytes index c (returns w) f = elim (Bool-cases (leb (c.pos + w) u64_max)) [
    | inr e ↦ rw e (stopped-Steps bytes c (throws DownloadError.fragment) f.kept (λ u h. cc))
    | inl e ↦ rw e (record {
      kept = (Inv-report bytes index _ (f.going w refl)).kept;
      going = λ u h. Inv-report bytes index _ (f.going w refl);
    })
  ]

  -- The chunk goes to the end of the buffer.
  Inv-extend :
      (bytes chunk : List ℕ) (count : ℕ) (c : Cursor storage)
      → Inv storage s₀ start expected bytes c
      → Inv storage s₀ start expected
          (bytes ++ chunk)
          (record c { write_buf = c.write_buf ++ chunk; chunk_count = count })
  Inv-extend bytes chunk count c v = record {
    written = v.written;
    split = ap (λ (l : List ℕ). l ++ chunk) v.split ∙ append_assoc v.written c.write_buf chunk;
    here = v.here;
    total = v.total;
    within = v.within;
    holds = v.holds;
    kept = v.kept;
  }

  take_chunk-Steps :
      (bytes : List ℕ) (threshold index : ℕ) (races : ℕ → Race) (chunk : DownloadResult (List ℕ))
      (c : Cursor storage)
      → Inv storage s₀ start expected bytes c
      → Steps storage s₀ start expected
          (bytes ++ bytes_of chunk)
          (take_chunk storage threshold index expected races chunk c)
  take_chunk-Steps bytes threshold index races (err e) c v = stopped-Steps _ c _ v.kept (λ u h. cc)
  take_chunk-Steps bytes threshold index races panic c v = stopped-Steps _ c _ v.kept (λ u h. cc)
  take_chunk-Steps bytes threshold index races (ok chunk) c v =
      let longer = Inv-extend bytes chunk (u64 (c.chunk_count + 1)) c v in
      elim (Bool-cases (leb threshold (length (c.write_buf ++ chunk)))) [
        | inl e ↦ rw e (
            flushed-Steps (bytes ++ chunk) index _ _
              (flush-Flushed storage s₀ start expected (bytes ++ chunk) races _ longer))
        | inr e ↦ rw e (record { kept = v.kept; going = λ u h. longer })
      ]

  obey-Steps :
      (bytes : List ℕ) (x : Async (Unit {0})) (c : Cursor storage)
      (next : Cursor storage × Async (Unit {0}))
      → Kept storage s₀ start expected c
      → (((u : Unit {0}) → x ≡ returns u → Steps storage s₀ start expected bytes next))
      → Steps storage s₀ start expected bytes (obey storage x c next)
  obey-Steps bytes (returns u) c next k n = n u refl
  obey-Steps bytes (throws e) c next k n = stopped-Steps bytes c _ k (λ u h. cc)
  obey-Steps bytes panics c next k n = stopped-Steps bytes c _ k (λ u h. cc)
  obey-Steps bytes waits c next k n = stopped-Steps bytes c _ k (λ u h. cc)
  obey-Steps bytes exhausted c next k n = stopped-Steps bytes c _ k (λ u h. cc)

  take_item-Steps :
      (bytes : List ℕ) (threshold index : ℕ) (item : Item) (c : Cursor storage)
      → Inv storage s₀ start expected bytes c
      → Steps storage s₀ start expected
          (bytes ++ bytes_of item.chunk)
          (take_item storage threshold index expected item c)
  unfolding take_item
  take_item-Steps bytes threshold index item c v =
      obey-Steps _ (wait_control item.control) c _ v.kept
        (λ u h. take_chunk-Steps bytes threshold index item.races item.chunk c v)

  pub take_items-Steps :
      (bytes : List ℕ) (threshold index : ℕ) (items : List Item) (c : Cursor storage)
      → Inv storage s₀ start expected bytes c
      → Steps storage s₀ start expected
          (bytes ++ received items)
          (take_items storage threshold index expected items c)
  unfolding take_items
  take_items-Steps bytes threshold index [] c v = record {
    kept = v.kept;
    going = λ u h. rw append-nil v;
  }
  take_items-Steps bytes threshold index (item ∷ items) c v =
      let step = take_item-Steps bytes threshold index item c v in
      obey-Steps _ (take_item storage threshold index expected item c).1
        (take_item storage threshold index expected item c).0 _ step.kept
        (λ u h. rw (← append_assoc bytes (bytes_of item.chunk) (received items)) (
          take_items-Steps (bytes ++ bytes_of item.chunk) threshold index items _ (step.going u h)))
