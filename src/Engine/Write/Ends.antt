-- ===== src/Engine/Write/Ends.antt =====
-- write_all_at of downloader.rs where nothing goes wrong.
use ai_model_downloader.Base.{
  nat_eq, string_eq, ℕ, zero, suc, ◌+◌, ◌≤◌, ◌<◌, ◌≡◌, refl, ap, ◌∙◌, List, [], ◌∷◌, arith, le→leb,
  ne→==, u64_max, length, drop, length-drop,
}
use ai_model_downloader.Core.Error.{DownloadResult, ok}
use ai_model_downloader.Engine.Async.{Async, returns}
use ai_model_downloader.Engine.Storage.{AsyncStorage}
use ai_model_downloader.Engine.Write.{Race, written, write_loop, write_all_at, after_write}

module _ (storage : AsyncStorage) where
  open storage use {State, write_at}

  -- The storage takes a byte at least of every batch that is not empty.
  abbrev pub Works : Type 0
  Works =
      (s : State) (pos : ℕ) (b : ℕ) (bs : List ℕ)
      → (n : ℕ) × ((write_at s pos (b ∷ bs)).1 ≡ ok n) × (0 < n)

  after_progress :
      (k : State → ℕ → List ℕ → ℕ → State × Async ℕ) (s s' : State) (r : DownloadResult ℕ)
      (n pos total : ℕ) (batch : List ℕ)
      → r ≡ ok n
      → 0 < n
      → n ≤ length batch
      → pos + length batch ≤ u64_max
      → total + length batch ≤ u64_max
      → after_write storage k (s', r) pos batch total ≡ k s' (pos + n) (drop n batch) (total + n)
  after_progress k s s' r n pos total batch e z l p t =
      rw
        (
          e,
          ne→== n 0 (omega arith),
          le→leb (pos + n) u64_max (omega arith),
          le→leb (total + n) u64_max (omega arith),
          le→leb n (length batch) l,
        )
        refl

  write_loop_ends :
      (fuel : ℕ) (races : ℕ → Race) (i : ℕ) (s : State) (pos : ℕ) (batch : List ℕ) (total : ℕ)
      → Works
      → ((j : ℕ) → races j ≡ written)
      → length batch ≤ fuel
      → pos + length batch ≤ u64_max
      → total + length batch ≤ u64_max
      → (write_loop storage fuel races i s pos batch total).1 ≡ returns (total + length batch)
  unfolding write_loop
  write_loop_ends fuel races i s pos [] total w r f p t = ap returns (omega arith)
  write_loop_ends zero races i s pos (b ∷ bs) total w r f p t = absurd (omega arith)
  write_loop_ends (suc fuel) races i s pos (b ∷ bs) total w r f p t =
      let (n, e, z) = w s pos b bs in
      let l = storage.write_at_length s pos (b ∷ bs) n e in
      let rest =
        write_loop_ends fuel races (suc i) (write_at s pos (b ∷ bs)).0 (pos + n) (drop n (b ∷ bs))
          (total + n) w r (omega (arith, length-drop n (b ∷ bs)))
          (omega (arith, length-drop n (b ∷ bs))) (omega (arith, length-drop n (b ∷ bs))) in
      rw (r i) (
        rw
          (after_progress (write_loop storage fuel races (suc i)) s (write_at s pos (b ∷ bs)).0
            (write_at s pos (b ∷ bs)).1 n pos total (b ∷ bs) e z l p t)
          (rest ∙ ap returns (omega (arith, length-drop n (b ∷ bs)))))

  -- If no interrupt comes and each write takes a byte at least, a batch that ends below 2^64 is
  -- written to its end, however short the single writes are.
  pub write_all_at_ends :
      (races : ℕ → Race) (s : State) (pos : ℕ) (batch : List ℕ)
      → Works
      → ((j : ℕ) → races j ≡ written)
      → pos + length batch ≤ u64_max
      → (write_all_at storage races s pos batch).1 ≡ returns (length batch)
  unfolding write_all_at
  write_all_at_ends races s pos batch w r p =
      write_loop_ends (length batch) races 0 s pos batch 0 w r (omega arith) p (omega arith)
      ∙ ap returns (omega arith)
