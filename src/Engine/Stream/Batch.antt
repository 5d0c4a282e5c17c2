-- ===== src/Engine/Stream/Batch.antt =====
-- downloader.rs, download_single_fragment: the invariant between two batches, and flushing one.
use ai_model_downloader.Base.{
  refl, nat_eq, string_eq, ℕ, ◌+◌, ◌≤◌, ◌≡◌, sym, ◌∙◌, inl, inr, List, [], ◌∷◌, ◌++◌, arith, ltb,
  leb, Bool-cases, u64_max, length, length-append,
}
use ai_model_downloader.Core.Error.{DownloadError, DownloadResult, ok, err, panic}
use ai_model_downloader.Engine.Async.{Async, returns, throws}
use mathlib.Core.List.{append-nil}
use ai_model_downloader.Engine.Storage.{AsyncStorage, Holds, Outside}
use ai_model_downloader.Engine.Write.{Race, write_all_at}
use ai_model_downloader.Engine.Write.Whole.{
  Holds-append, Holds-Outside, Outside-trans, Writes, write_all_at-Writes,
}
use ai_model_downloader.Engine.Stream.{Item, Cursor, flush, written_to}

abbrev pub bytes_of : DownloadResult (List ℕ) → List ℕ
bytes_of (ok bs) = bs
bytes_of (err e) = []
bytes_of panic = []

-- The bytes that the stream brings.
abbrev pub received : List Item → List ℕ
received [] = []
received (item ∷ items) = bytes_of item.chunk ++ received items

module _ (storage : AsyncStorage) (s₀ : storage.State) (start expected : ℕ) where
  open storage use {State, byte}

  abbrev pub Kept : Cursor storage → Type 0
  Kept c = Outside (byte s₀) (byte c.state) start expected

  -- `bytes` have come; all but those in the buffer are in the file.
  pub record Inv (bytes : List ℕ) (c : Cursor storage) : Type 0 where
    pub written : List ℕ
    pub split : bytes ≡ written ++ c.write_buf
    pub here : c.pos ≡ start + length written
    pub total : c.total_written ≡ length written
    pub within : length written ≤ expected
    pub holds : Holds (byte c.state) start written
    pub kept : Kept c

  pub record Steps (bytes : List ℕ) (r : Cursor storage × Async (Unit {0})) : Type 0 where
    pub kept : Kept r.0
    pub going : (u : Unit {0}) → r.1 ≡ returns u → Inv bytes r.0

  pub record Flushed (bytes : List ℕ) (r : Cursor storage × Async ℕ) : Type 0 where
    pub kept : Kept r.0
    pub going :
        (w : ℕ)
        → r.1 ≡ returns w
        → Inv bytes (record (r.0) { pos = (r.0).pos + w; total_written = (r.0).total_written + w })
    pub emptied : (w : ℕ) → r.1 ≡ returns w → (r.0).write_buf ≡ []

  -- The write of a batch, from what write_all_at promises.
  written-Flushed :
      (bytes : List ℕ) (c : Cursor storage) (r : State × Async ℕ)
      → Inv bytes c
      → c.total_written + length c.write_buf ≤ expected
      → Writes storage c.state c.pos 0 c.write_buf r
      → Flushed bytes (written_to storage c r)
  written-Flushed bytes c (s', x) v f w = record {
    kept = kept';
    going = λ n e. record {
      written = v.written ++ c.write_buf;
      split = v.split ∙ sym (append-nil _);
      here = omega (arith, v.here, (w.holds n e).1, length-append v.written c.write_buf);
      total = omega (arith, v.total, (w.holds n e).1, length-append v.written c.write_buf);
      within = omega (arith, v.total, f, length-append v.written c.write_buf);
      holds =
          Holds-append (byte s') start c.pos v.written c.write_buf v.here
            (Holds-Outside (byte c.state) (byte s') start c.pos (length c.write_buf) v.written
              (inl (omega (arith, v.here))) w.outside v.holds)
            (w.holds n e).0;
      kept = kept';
    };
    emptied = λ n e. refl;
  }
    where
      kept' : Outside (byte s₀) (byte s') start expected
      kept' =
          Outside-trans (byte s₀) (byte c.state) (byte s') start expected c.pos (length c.write_buf)
            start expected (omega arith) (omega arith) (omega (arith, v.here))
            (omega (arith, v.here, v.total)) v.kept w.outside

  refused-Flushed :
      (bytes : List ℕ) (c : Cursor storage) (e : DownloadError)
      → Kept c
      → Flushed bytes (c, throws e)
  refused-Flushed bytes c e k = record { kept = k; going = λ w h. cc; emptied = λ w h. cc }

  pub flush-Flushed :
      (bytes : List ℕ) (races : ℕ → Race) (c : Cursor storage)
      → Inv bytes c
      → Flushed bytes (flush storage expected races c)
  unfolding flush
  flush-Flushed bytes races c v =
      elim (Bool-cases (leb (c.total_written + length c.write_buf) u64_max)) [
        | inr e ↦ rw e (refused-Flushed bytes c DownloadError.fragment v.kept)
        | inl e ↦ elim (Bool-cases (ltb expected (c.total_written + length c.write_buf))) [
          | inl f ↦ rw (e, f) (refused-Flushed bytes c DownloadError.fragment v.kept)
          | inr f ↦
              rw (e, f)
                (written-Flushed bytes c (write_all_at storage races c.state c.pos c.write_buf) v
                  (ground (arith, f)) (write_all_at-Writes storage races c.state c.pos c.write_buf))
        ]
      ]
