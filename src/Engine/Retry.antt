-- ===== src/Engine/Retry.antt =====
-- crates/tachyon-engine/src/downloader.rs, the task that execute_fragmented_download spawns for each
-- fragment: attempts, the circuit breaker of the source, and backoff. An attempt is a function on a
-- state (the storage); what other tasks do to the shared breakers between two steps, and the times,
-- are given. The semaphore of the fragment tasks is never closed and only delays.
pub mod Bounds
pub mod Result
pub mod Filled
mod Examples
use ai_model_downloader.Base.{
  lookup, insert, remove, Eq, nat_eq, string_eq, lookup-insert, lookup-remove, ℕ, zero, suc, ◌+◌,
  ◌-◌, ◌*◌, ◌/◌, ◌%◌, ◌^◌, ◌≤◌, ◌<◌, min, max, ◌≡◌, refl, sym, ap, ◌∙◌, subst, ◌≢◌, ◌↔◌, ◌⊎◌, inl,
  inr, Bool, true, false, not, ◌&&◌, ◌||◌, Option, none, some, List, [], ◌∷◌, ◌++◌, map, arith,
  dec_lt, ℕ_discrete, ltb, leb, ◌==◌, if◌then◌else◌, ltb→lt, lt→ltb, leb→le, le→leb, ==_iff, ne→==,
  Bool-cases, Option-cases, u8, u32, u64, u64_max, checked_add, length, get_elem?, set, take, drop,
  length-append, length-drop, length-set, All,
}
use ai_model_downloader.Core.Error.{DownloadError, DownloadResult, ok, err, panic, ◌>>=◌}
use ai_model_downloader.Engine.Async.{Async, returns, throws, panics, waits, exhausted, of_result}
use Prim.Native.String.{String}
use ai_model_downloader.Core.Error.{is_retryable}
use ai_model_downloader.Engine.Circuit.{
  SourceCircuitBreakers, allow_source, record_source_success, record_source_failure,
}
use ai_model_downloader.Engine.Fragment.{jitter}

-- What surrounds one attempt: the effect of other tasks on the breakers before it and during it, and
-- the times at which the breaker is asked and told.
pub record Turn : Type 0 where
  pub before : SourceCircuitBreakers → SourceCircuitBreakers
  pub asked_at : ℕ
  pub during : SourceCircuitBreakers → SourceCircuitBreakers
  pub told_at : ℕ

abbrev exponential : ℕ → ℕ → ℕ
exponential frag_index attempt =
    let base_secs = 2 ^ min attempt 10 in
    let seed = u64 (u64 (frag_index * 0x9E3779B97F4A7C15) + attempt) in
    if leb base_secs 1 then 1 else max (base_secs - jitter base_secs seed) 1

-- The seconds to wait after an error: what the server asks for, at most 1024, or a power of two with
-- jitter.
unfoldable pub backoff : ℕ → ℕ → DownloadError → ℕ
backoff frag_index attempt (DownloadError.throttled (some secs)) = min secs 1024
backoff frag_index attempt e = exponential frag_index attempt

-- The state, the breakers, the pauses in seconds (last first), the errors that were retried (last
-- first), the attempts made, and the errors counted in the metrics.
pub record Log (S : Type 0) : Type 0 where
  pub state : S
  pub breakers : SourceCircuitBreakers
  pub sleeps : List ℕ
  pub retried : List DownloadError
  pub attempts : ℕ
  pub errors : ℕ

module _ {S : Type 0} where
  abbrev give_up : String → Turn → DownloadError → Log S → Log S × Async (ℕ × ℕ)
  give_up url turn e l = (
    record l {
      breakers = record_source_failure l.breakers url turn.told_at;
      errors = l.errors + 1;
    },
    throws e,
  )

  abbrev pause : String → ℕ → ℕ → Turn → DownloadError → Log S → Log S
  pause url frag_index attempt turn e l = record l {
    breakers = record_source_failure l.breakers url turn.told_at;
    sleeps = backoff frag_index attempt e ∷ l.sleeps;
    retried = e ∷ l.retried;
  }

  -- The `match result`, `k` being the next round.
  abbrev judge :
      String
      → ℕ
      → ℕ
      → ℕ
      → Turn
      → (Log S → Log S × Async (ℕ × ℕ))
      → Log S
      → Async (ℕ × ℕ)
      → Log S × Async (ℕ × ℕ)
  judge url frag_index max_retries attempt turn k l (returns r) =
      (record l { breakers = record_source_success l.breakers url }, returns r)
  judge url frag_index max_retries attempt turn k l (throws e) =
      let next = k (pause url frag_index attempt turn e l) in
      if not (is_retryable e)
      then give_up url turn e l
      else if leb max_retries attempt
      then give_up url turn e l
      else next
  judge url frag_index max_retries attempt turn k l panics = (l, panics)
  judge url frag_index max_retries attempt turn k l waits = (l, waits)
  judge url frag_index max_retries attempt turn k l exhausted = (l, exhausted)

  abbrev tried : Turn → Log S → S × Async (ℕ × ℕ) → Log S
  tried turn l (s, r) = record l {
    state = s;
    breakers = turn.during l.breakers;
    attempts = l.attempts + 1;
  }

  abbrev blocked : ℕ → ℕ → (Log S → Log S × Async (ℕ × ℕ)) → Log S → Log S × Async (ℕ × ℕ)
  blocked max_retries attempt k l =
      let next = k (record l { sleeps = 1 ∷ l.sleeps }) in
      if leb max_retries attempt then (l, throws DownloadError.network) else next

  abbrev asked : Log S → SourceCircuitBreakers → Log S
  asked l b = record l { breakers = b }

  -- One round of the loop: the breaker is asked, the fragment is tried, the result is judged.
  abbrev round :
      String
      → ℕ
      → ℕ
      → ℕ
      → Turn
      → (S → S × Async (ℕ × ℕ))
      → (Log S → Log S × Async (ℕ × ℕ))
      → Log S
      → Log S × Async (ℕ × ℕ)
  round url frag_index max_retries attempt turn download k l =
      let (b, allowed) = allow_source (turn.before l.breakers) url turn.asked_at in
      let result = download l.state in
      if not allowed
      then blocked max_retries attempt k (asked l b)
      else judge url frag_index max_retries attempt turn k (tried turn (asked l b) result) result.1

  -- The `loop`, with fuel.
  unfoldable pub retry_loop :
      String
      → ℕ
      → ℕ
      → (ℕ → Turn)
      → (ℕ → S → S × Async (ℕ × ℕ))
      → ℕ
      → ℕ
      → Log S
      → Log S × Async (ℕ × ℕ)
  retry_loop url frag_index max_retries turns download zero attempt l = (l, exhausted)
  retry_loop url frag_index max_retries turns download (suc fuel) attempt l =
      round url frag_index max_retries attempt (turns attempt) (download attempt)
        (retry_loop url frag_index max_retries turns download fuel (attempt + 1)) l

  abbrev started : SourceCircuitBreakers → S → Log S
  started breakers s = record {
    state = s;
    breakers = breakers;
    sleeps = [];
    retried = [];
    attempts = 0;
    errors = 0;
  }

  -- `attempt` starts at 0 and the loop ends when it reaches `max_retries`.
  unfoldable pub fragment_task :
      String
      → ℕ
      → ℕ
      → (ℕ → Turn)
      → (ℕ → S → S × Async (ℕ × ℕ))
      → SourceCircuitBreakers
      → S
      → Log S × Async (ℕ × ℕ)
  unfolding retry_loop
  fragment_task url frag_index max_retries turns download breakers s =
      retry_loop url frag_index max_retries turns download (suc max_retries) 0 (started breakers s)
