-- ===== src/Engine/Storage.antt =====
-- The storage that the engine writes to: the trait `AsyncStorage` of crates/tachyon-io/src/storage.rs,
-- as far as the engine uses it. Its backends write to the operating system; what the engine relies
-- on is stated as laws. A byte that was never written has some value.
pub mod Memory
use ai_model_downloader.Base.{ℕ, ◌+◌, ◌≤◌, ◌<◌, ◌≡◌, ◌⊎◌, List, [], ◌∷◌, length, take}
use ai_model_downloader.Core.Error.{DownloadResult, ok}

-- The bytes of `bytes` stand in the file from `pos` on.
abbrev pub Holds : (ℕ → ℕ) → ℕ → List ℕ → Type 0
Holds file pos [] = Unit
Holds file pos (b ∷ bs) = (file pos ≡ b) × Holds file (pos + 1) bs

-- Nothing but the `count` bytes from `pos` on has changed.
abbrev pub Outside : (ℕ → ℕ) → (ℕ → ℕ) → ℕ → ℕ → Type 0
Outside before after pos count = (i : ℕ) → (i < pos) ⊎ (pos + count ≤ i) → after i ≡ before i

pub record AsyncStorage : Type 1 where
  pub State : Type 0
  pub byte : State → ℕ → ℕ
  -- A write, which may be short, and may fail after it has changed part of its range.
  pub write_at : State → ℕ → List ℕ → State × DownloadResult ℕ
  -- The state after a write whose future was dropped.
  pub dropped : State → ℕ → List ℕ → State
  pub write_at_length :
      (s : State) (pos : ℕ) (bytes : List ℕ) (n : ℕ)
      → (write_at s pos bytes).1 ≡ ok n
      → n ≤ length bytes
  pub write_at_Holds :
      (s : State) (pos : ℕ) (bytes : List ℕ) (n : ℕ)
      → (write_at s pos bytes).1 ≡ ok n
      → Holds (byte (write_at s pos bytes).0) pos (take n bytes)
  pub write_at_Outside :
      (s : State) (pos : ℕ) (bytes : List ℕ)
      → Outside (byte s) (byte (write_at s pos bytes).0) pos (length bytes)
  pub dropped_Outside :
      (s : State) (pos : ℕ) (bytes : List ℕ)
      → Outside (byte s) (byte (dropped s pos bytes)) pos (length bytes)
