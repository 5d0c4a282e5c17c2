-- ===== src/Engine/Retry/Bounds.antt =====
-- downloader.rs: the bounds that the retry loop keeps to, and the ways a round goes on.
use ai_model_downloader.Base.{
  nat_eq, string_eq, ℕ, suc, ◌+◌, ◌≤◌, min, ◌≡◌, ◌≢◌, true, none, some, arith, length, All,
}
use ai_model_downloader.Core.Error.{DownloadError}
use ai_model_downloader.Engine.Async.{Async, returns, exhausted}
use ai_model_downloader.Core.Error.{is_retryable}
use ai_model_downloader.Engine.Fragment.Backoff.{k-DrawBounds}
use ai_model_downloader.Engine.Retry.{Log, backoff, exponential}

exponential-le : (frag_index attempt : ℕ) → exponential frag_index attempt ≤ 1024
exponential-le frag_index attempt = ground (arith, k-DrawBounds (min attempt 10) 0 (omega arith))

pub backoff-le : (frag_index attempt : ℕ) (e : DownloadError) → backoff frag_index attempt e ≤ 1024
unfolding backoff
backoff-le frag_index attempt (DownloadError.throttled (some secs)) = omega arith
backoff-le frag_index attempt (DownloadError.throttled none) = exponential-le frag_index attempt
backoff-le frag_index attempt _ = exponential-le frag_index attempt

module _ {S : Type 0} (download : ℕ → S → S × Async (ℕ × ℕ)) where
  -- The log so far: pauses of at most 1024 seconds, and retried errors that are worth it.
  pub record Sound (l : Log S) : Type 0 where
    pub pauses : All (λ s. s ≤ 1024) l.sleeps
    pub worthwhile : All (λ e. is_retryable e ≡ true) l.retried

  -- What a loop with `k` retries left makes of the log `l`.
  pub record Reports (k : ℕ) (l : Log S) (r : Log S × Async (ℕ × ℕ)) : Type 0 where
    pub sound : Sound r.0
    pub attempts_within : (r.0).attempts ≤ l.attempts + suc k
    pub sleeps_within : length (r.0).sleeps ≤ length l.sleeps + k
    pub ended : r.1 ≢ exhausted
    pub origin :
        (v : ℕ × ℕ)
        → r.1 ≡ returns v
        → (i : ℕ) × (s : S) × (download i s ≡ ((r.0).state, returns v))

  -- A round that ends the loop, with its log and answer.
  pub last-Reports :
      (k : ℕ) (l l' : Log S) (x : Async (ℕ × ℕ))
      → Sound l'
      → l'.attempts ≤ l.attempts + 1
      → length l'.sleeps ≤ length l.sleeps
      → x ≢ exhausted
      → ((v : ℕ × ℕ) → x ≡ returns v → (i : ℕ) × (s : S) × (download i s ≡ (l'.state, returns v)))
      → Reports k l (l', x)
  last-Reports k l l' x v a b e o = record {
    sound = v;
    attempts_within = omega arith;
    sleeps_within = omega arith;
    ended = e;
    origin = o;
  }

  -- A round that goes on.
  pub next-Reports :
      (k : ℕ) (l l' : Log S) (r : Log S × Async (ℕ × ℕ))
      → l'.attempts ≤ l.attempts + 1
      → length l'.sleeps ≤ length l.sleeps + 1
      → Reports k l' r
      → Reports (suc k) l r
  next-Reports k l l' r a b w = record {
    sound = w.sound;
    attempts_within = omega (arith, w.attempts_within);
    sleeps_within = omega (arith, w.sleeps_within);
    ended = w.ended;
    origin = w.origin;
  }
