-- ===== src/Engine/Write.antt =====
-- crates/tachyon-engine/src/downloader.rs, write_all_at: a batch is written to the end, however short
-- the single writes are. Each write races the control channel; how the race ends is given.
pub mod Whole
mod Ends
pub mod Total
mod Examples
use ai_model_downloader.Base.{
  ℕ, zero, suc, ◌+◌, Bool, true, false, Option, none, some, List, [], ◌∷◌, ltb, leb, ◌==◌,
  if◌then◌else◌, checked_add, length, drop,
}
use ai_model_downloader.Core.Error.{DownloadError, DownloadResult, ok, err, panic}
use ai_model_downloader.Engine.Async.{Async, returns, throws, panics, waits, exhausted}
use ai_model_downloader.Engine.Control.{Channel, watch_for_interrupt}
use ai_model_downloader.Engine.Storage.{AsyncStorage}

-- One `select!`: the write ends first, or the watcher on the control channel does.
pub data Race : Type 0 where
  written : Race
  interrupted : Channel → Race

-- An interrupt ends the call; the watcher's `?`, then the error after it.
unfoldable pub interrupt {ℓ} : {A : Type ℓ} → Async (Unit {0}) → Async A
interrupt (returns u) = throws DownloadError.other
interrupt (throws e) = throws e
interrupt panics = panics
interrupt waits = waits
interrupt exhausted = exhausted

module _ (storage : AsyncStorage) where
  open storage use {State, write_at, dropped}

  -- The two sums of a round, and `advance`, which panics past the end.
  abbrev advanced : Option ℕ → Option ℕ → Bool → (ℕ → ℕ → State × Async ℕ) → State → State × Async ℕ
  advanced none _ _ k s = (s, throws DownloadError.fragment)
  advanced (some pos) none _ k s = (s, throws DownloadError.fragment)
  advanced (some pos) (some total) false k s = (s, panics)
  advanced (some pos) (some total) true k s = k pos total

  -- What follows a write, `k` being the next round at its state, position, rest and total.
  abbrev after_write :
      (State → ℕ → List ℕ → ℕ → State × Async ℕ)
      → State × DownloadResult ℕ
      → ℕ
      → List ℕ
      → ℕ
      → State × Async ℕ
  after_write k (s, err e) pos batch total = (s, throws e)
  after_write k (s, panic) pos batch total = (s, panics)
  after_write k (s, ok n) pos batch total =
      let next =
        advanced (checked_add pos n) (checked_add total n) (leb n (length batch))
          (λ p t. k s p (drop n batch) t) s in
      if n == 0 then (s, throws DownloadError.fragment) else next

  abbrev write_round :
      (State → ℕ → List ℕ → ℕ → State × Async ℕ) → Race → State → ℕ → List ℕ → ℕ → State × Async ℕ
  write_round k (interrupted c) s pos batch total =
      (dropped s pos batch, interrupt (watch_for_interrupt c))
  write_round k written s pos batch total = after_write k (write_at s pos batch) pos batch total

  -- The loop; round `i` of the loop has the race `races i`.
  unfoldable pub write_loop : ℕ → (ℕ → Race) → ℕ → State → ℕ → List ℕ → ℕ → State × Async ℕ
  write_loop fuel races i s pos [] total = (s, returns total)
  write_loop zero races i s pos (b ∷ bs) total = (s, exhausted)
  write_loop (suc fuel) races i s pos (b ∷ bs) total =
      write_round (write_loop fuel races (suc i)) (races i) s pos (b ∷ bs) total

  -- A round that goes on has written a byte at least, so the length of the batch is fuel enough.
  unfoldable pub write_all_at : (ℕ → Race) → State → ℕ → List ℕ → State × Async ℕ
  unfolding write_loop
  write_all_at races s pos batch = write_loop (length batch) races 0 s pos batch 0
