-- ===== src/Core/Error.antt =====
-- crates/tachyon-core/src/error.rs. Messages are texts for people and are left out; what the code
-- branches on (the variant, an HTTP status, a `Retry-After` value) is kept.
use ai_model_downloader.Base.{
  nat_eq, string_eq, ℕ, ◌≡◌, refl, Bool, true, false, ◌||◌, Option, leb, ◌==◌,
}

pub data DownloadError : Type 0 where
  network protocol io fragment checksum_mismatch no_expected_checksum config cancelled :
      DownloadError
  task_not_found connection_pool_exhausted timeout : DownloadError
  throttled : Option ℕ → DownloadError
  forbidden : ℕ → DownloadError
  http : ℕ → DownloadError
  url_parse serialization other : DownloadError

unfoldable pub is_retryable : DownloadError → Bool
is_retryable DownloadError.cancelled = false
is_retryable (DownloadError.forbidden status) = false
is_retryable DownloadError.checksum_mismatch = false
is_retryable DownloadError.no_expected_checksum = false
is_retryable DownloadError.task_not_found = false
is_retryable DownloadError.config = false
is_retryable (DownloadError.http status) = status == 429 || (status == 408 || leb 500 status)
is_retryable DownloadError.other = false
is_retryable _ = true

-- `DownloadResult<T>`. A Rust panic is an outcome of its own, which no caller catches.
pub data DownloadResult {ℓ} (A : Type ℓ) : Type ℓ where
  ok : A → DownloadResult A
  err : DownloadError → DownloadResult A
  panic : DownloadResult A

infixl 5 ◌>>=◌
abbrev pub ◌>>=◌ {ℓ κ} :
    {A : Type ℓ} {B : Type κ} → DownloadResult A → (A → DownloadResult B) → DownloadResult B
ok a >>= f = f a
err e >>= f = err e
panic >>= f = panic

module _ {ℓ κ} {A : Type ℓ} {B : Type κ} (next : A → DownloadResult B) (b : B) where
  -- Both steps of a chain that ends well end well.
  pub ok-parts :
      (first : DownloadResult A)
      → (first >>= next) ≡ ok b
      → (a : A) × (next a ≡ ok b) × (first ≡ ok a)
  ok-parts (err e) h = cc
  ok-parts panic h = cc
  ok-parts (ok a) h = (a, h, refl)
