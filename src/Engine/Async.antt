-- ===== src/Engine/Async.antt =====
-- What awaiting a call of the engine comes to. `throws` is the `Err` of a `DownloadResult`; `waits`
-- is a future that is still pending when the events given to it end; `exhausted` is a loop of the
-- model whose fuel ran out.
use ai_model_downloader.Core.Error.{DownloadError, DownloadResult, ok, err, panic}

pub data Async {ℓ} (A : Type ℓ) : Type ℓ where
  returns : A → Async A
  throws : DownloadError → Async A
  panics waits exhausted : Async A

abbrev pub of_result {ℓ} : {A : Type ℓ} → DownloadResult A → Async A
of_result (ok a) = returns a
of_result (err e) = throws e
of_result panic = panics
