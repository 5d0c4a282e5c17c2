-- ===== src/Engine/Stream/Filled.antt =====
-- downloader.rs, download_single_fragment: the bytes that a whole attempt writes.
use ai_model_downloader.Engine.Write.Whole.{interrupt_never}
use ai_model_downloader.Base.{
  nat_eq, string_eq, ℕ, ◌+◌, ◌<◌, ◌≡◌, refl, sym, ap, ◌∙◌, subst, ◌≢◌, ◌⊎◌, inl, inr, Option, none,
  some, List, [], ◌∷◌, ◌++◌, arith, ◌==◌, ==_iff, Bool-cases, length,
}
use ai_model_downloader.Core.Error.{ok, err, panic}
use ai_model_downloader.Engine.Async.{Async, returns, throws, panics, waits, exhausted}
use mathlib.Core.List.{append-nil}
use ai_model_downloader.Engine.Control.{wait_control, watch_for_interrupt}
use ai_model_downloader.Engine.Storage.{AsyncStorage, Holds}
use ai_model_downloader.Engine.Write.{Race}
use ai_model_downloader.Engine.Stream.{
  Item, Attempt, Opening, answered, stopped, Range, Cursor, expected_len, flush, start_at,
  download_single_fragment, write_batch_bytes, complete, last_flushed, receive, open_stream, finish,
  permitted,
}
use ai_model_downloader.Engine.Stream.Batch.{received, Kept, Inv, Steps, Flushed, flush-Flushed}
use ai_model_downloader.Engine.Stream.Loop.{take_items-Steps}

module _ (storage : AsyncStorage) (s₀ : storage.State) (start expected : ℕ) where
  open storage use {State, byte}

  -- The end of an attempt: the whole fragment is there, or the call has failed.
  record Ends (bytes : List ℕ) (elapsed : ℕ) (r : Cursor storage × Async (ℕ × ℕ)) : Type 0 where
    kept : Kept storage s₀ start expected r.0
    filled :
        (n d : ℕ)
        → r.1 ≡ returns (n, d)
        → (n ≡ expected)
          × (d ≡ elapsed)
          × (length bytes ≡ expected)
          × Holds (byte (r.0).state) start bytes

  failed-Ends :
      (bytes : List ℕ) (elapsed : ℕ) (c : Cursor storage) (x : Async (ℕ × ℕ))
      → Kept storage s₀ start expected c
      → ((n d : ℕ) → x ≢ returns (n, d))
      → Ends bytes elapsed (c, x)
  failed-Ends bytes elapsed c x k never = record {
    kept = k;
    filled = λ n d h. absurd (never n d h);
  }

  complete-Ends :
      (bytes : List ℕ) (index elapsed pos : ℕ) (c : Cursor storage)
      → Inv storage s₀ start expected bytes (record c { pos = pos })
      → c.write_buf ≡ []
      → Ends bytes elapsed (complete storage index expected elapsed c)
  complete-Ends bytes index elapsed pos c v e = elim (Bool-cases (c.total_written == expected)) [
    | inr q ↦ rw q (failed-Ends bytes elapsed c _ v.kept (λ n d h. cc))
    | inl q ↦ rw q (record {
      kept = v.kept;
      filled = λ n d h. (
        ground (arith, h, q),
        ground (arith, h),
        omega (arith, ap length whole, v.total, (==_iff c.total_written expected).0 q),
        subst (Holds (byte c.state) start) (sym whole) v.holds,
      );
    })
  ]
    where
      whole : bytes ≡ v.written
      whole = v.split ∙ ap (λ (l : List ℕ). v.written ++ l) e ∙ append-nil v.written

  last_flushed-Ends :
      (bytes : List ℕ) (index elapsed : ℕ) (c : Cursor storage) (x : Async ℕ)
      → Flushed storage s₀ start expected bytes (c, x)
      → Ends bytes elapsed (last_flushed storage index expected elapsed (c, x))
  last_flushed-Ends bytes index elapsed c (throws e) f =
      failed-Ends bytes elapsed c _ f.kept (λ n d h. cc)
  last_flushed-Ends bytes index elapsed c panics f =
      failed-Ends bytes elapsed c _ f.kept (λ n d h. cc)
  last_flushed-Ends bytes index elapsed c waits f =
      failed-Ends bytes elapsed c _ f.kept (λ n d h. cc)
  last_flushed-Ends bytes index elapsed c exhausted f =
      failed-Ends bytes elapsed c _ f.kept (λ n d h. cc)
  last_flushed-Ends bytes index elapsed c (returns w) f =
      complete-Ends bytes index elapsed (c.pos + w)
        (record c { total_written = c.total_written + w }) (f.going w refl) (f.emptied w refl)

  finish-Ends :
      (bytes : List ℕ) (index elapsed : ℕ) (races : ℕ → Race) (c : Cursor storage)
      (x : Async (Unit {0}))
      → Steps storage s₀ start expected bytes (c, x)
      → Ends bytes elapsed (finish storage index expected races elapsed (c, x))
  finish-Ends bytes index elapsed races c (throws e) f =
      failed-Ends bytes elapsed c _ f.kept (λ n d h. cc)
  finish-Ends bytes index elapsed races c panics f =
      failed-Ends bytes elapsed c _ f.kept (λ n d h. cc)
  finish-Ends bytes index elapsed races c waits f =
      failed-Ends bytes elapsed c _ f.kept (λ n d h. cc)
  finish-Ends bytes index elapsed races c exhausted f =
      failed-Ends bytes elapsed c _ f.kept (λ n d h. cc)
  finish-Ends bytes index elapsed races c (returns u) f =
      elim (Bool-cases (length c.write_buf == 0)) [
        | inl e ↦ rw e (
            complete-Ends bytes index elapsed c.pos c (f.going u refl)
              (empty_of_length c.write_buf ((==_iff (length c.write_buf) 0).0 e)))
        | inr e ↦ rw e (
            last_flushed-Ends bytes index elapsed (flush storage expected races c).0
              (flush storage expected races c).1
              (flush-Flushed storage s₀ start expected bytes races c (f.going u refl)))
      ]
    where
      empty_of_length : (l : List ℕ) → length l ≡ 0 → l ≡ []
      empty_of_length [] h = refl
      empty_of_length (x ∷ xs) h = absurd (omega arith)

-- No byte outside the range of the fragment has changed; and an attempt that returns has taken a
-- stream of as many bytes as the range has, which now stand in the range.
pub record Fills (storage : AsyncStorage) (range : Range) (a : Attempt) (s : storage.State)
    (r : Cursor storage × Async (ℕ × ℕ)) : Type 0 where
  pub outside :
      (i : ℕ) → (i < range.start) ⊎ (range.end < i) → storage.byte (r.0).state i ≡ storage.byte s i
  pub filled :
      (n d : ℕ)
      → r.1 ≡ returns (n, d)
      → (items : List Item) × (a.opening ≡ answered (ok items))
        × (range.start + n ≡ range.end + 1)
        × (length (received items) ≡ n)
        × Holds (storage.byte (r.0).state) range.start (received items)
        × (d ≡ a.elapsed)

module _ (storage : AsyncStorage) (range : Range) (a : Attempt) (s : storage.State) where
  -- An attempt that ends before the first write.
  early-Fills :
      (x : Async (ℕ × ℕ))
      → ((n d : ℕ) → x ≢ returns (n, d))
      → Fills storage range a s (start_at storage s range.start, x)
  unfolding start_at
  early-Fills x never = record { outside = λ i h. refl; filled = λ n d h. absurd (never n d h) }

  start-Inv :
      (expected : ℕ) → Inv storage s range.start expected [] (start_at storage s range.start)
  unfolding start_at
  start-Inv expected = record {
    written = [];
    split = refl;
    here = omega arith;
    total = refl;
    within = omega arith;
    holds = tt;
    kept = λ i h. refl;
  }

  receive-Fills :
      (o : Option ℕ) (items : List Item)
      → expected_len range ≡ o
      → a.opening ≡ answered (ok items)
      → Fills storage range a s (receive storage range a o items (start_at storage s range.start))
  receive-Fills none items e q = early-Fills _ (λ n d h. cc)
  receive-Fills (some expected) items e q = record {
    outside = λ i h. ends.kept i (omega (arith, reach, h));
    filled = λ n d h. (
      items,
      q,
      omega (arith, reach, (ends.filled n d h).0),
      omega (arith, (ends.filled n d h).0, (ends.filled n d h).2),
      (ends.filled n d h).3,
      (ends.filled n d h).1,
    );
  }
    where
      reach : range.start + expected ≡ range.end + 1
      reach = unfold expected_len in ground (arith, e)

      ends :
          Ends storage s range.start expected
            (received items)
            a.elapsed
            (receive storage range a (some expected) items (start_at storage s range.start))
      ends =
          finish-Ends storage s range.start expected (received items) range.index a.elapsed
            a.last_races _ _
            (take_items-Steps storage s range.start expected [] write_batch_bytes range.index items
              (start_at storage s range.start) (start-Inv expected))

  open-Fills :
      (o : Opening)
      → a.opening ≡ o
      → Fills storage range a s (open_stream storage range a o (start_at storage s range.start))
  open-Fills (stopped channel) q =
      early-Fills _ (λ n d h. interrupt_never (watch_for_interrupt channel) (n, d) h)
  open-Fills (answered (err e)) q = early-Fills _ (λ n d h. cc)
  open-Fills (answered panic) q = early-Fills _ (λ n d h. cc)
  open-Fills (answered (ok items)) q = receive-Fills (expected_len range) items refl q

  permitted-Fills :
      (x : Async (Unit {0}))
      → Fills storage range a s (permitted storage range a x (start_at storage s range.start))
  permitted-Fills (returns u) = open-Fills a.opening refl
  permitted-Fills (throws e) = early-Fills _ (λ n d h. cc)
  permitted-Fills panics = early-Fills _ (λ n d h. cc)
  permitted-Fills waits = early-Fills _ (λ n d h. cc)
  permitted-Fills exhausted = early-Fills _ (λ n d h. cc)

-- Whatever the server sends, the storage does and the control channel says: an attempt changes no
-- byte outside the range of its fragment, and if it returns, the server has sent exactly as many
-- bytes as the range has, the range of the file holds them in order, and the answer is their number.
pub download_single_fragment-Fills :
    (storage : AsyncStorage) (range : Range) (a : Attempt) (s : storage.State)
    → Fills storage range a s (download_single_fragment storage range a s)
unfolding download_single_fragment
download_single_fragment-Fills storage range a s =
    permitted-Fills storage range a s (wait_control a.control)
