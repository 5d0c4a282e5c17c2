-- ===== src/Engine/Retry/Result.antt =====
-- downloader.rs: the rounds of the retry loop, and a whole task.
use ai_model_downloader.Base.{
  nat_eq, string_eq, ℕ, zero, suc, ◌+◌, ◌≡◌, refl, ap, ◌≢◌, inl, inr, Bool, true, ◌∷◌, arith, leb,
  if◌then◌else◌, le→leb, lt→leb, Bool-cases, length,
}
use ai_model_downloader.Core.Error.{DownloadError}
use ai_model_downloader.Engine.Async.{Async, returns, throws, panics, waits, exhausted}
use Prim.Native.String.{String}
use ai_model_downloader.Core.Error.{is_retryable}
use ai_model_downloader.Engine.Circuit.{SourceCircuitBreakers, allow_source}
use ai_model_downloader.Engine.Retry.{
  Turn, Log, retry_loop, fragment_task, judge, blocked, give_up, pause, started, round, tried,
  asked,
}
use ai_model_downloader.Engine.Retry.Bounds.{backoff-le, Sound, Reports, last-Reports, next-Reports}

module _ {S : Type 0} (download : ℕ → S → S × Async (ℕ × ℕ)) (url : String)
    (frag_index max_retries : ℕ) where
  -- The rest of the loop, as a round finds it with `k` retries left.
  abbrev Rest : ℕ → (Log S → Log S × Async (ℕ × ℕ)) → Type 0
  Rest zero next = Unit {0}
  Rest (suc k) next = (l : Log S) → Sound download l → Reports download k l (next l)

  blocked-Reports :
      (k attempt : ℕ) (next : Log S → Log S × Async (ℕ × ℕ)) (l : Log S) (b : SourceCircuitBreakers)
      → attempt + k ≡ max_retries
      → Sound download l
      → Rest k next
      → Reports download k l (blocked max_retries attempt next (asked l b))
  blocked-Reports zero attempt next l b q v rest = rw (le→leb max_retries attempt (omega arith)) (
      last-Reports download zero l (asked l b) (throws DownloadError.network)
        (record { pauses = v.pauses; worthwhile = v.worthwhile }) (omega arith) (omega arith)
        (λ h. cc) (λ x h. cc))
  blocked-Reports (suc k) attempt next l b q v rest =
      rw (lt→leb attempt max_retries (omega arith)) (
        next-Reports download k l _ _ (omega arith) (omega arith) (
          rest (record (asked l b) { sleeps = 1 ∷ l.sleeps })
            (record { pauses = (omega arith, v.pauses); worthwhile = v.worthwhile })))

  -- The loop gives up on an error.
  gives_up-Reports :
      (k : ℕ) (turn : Turn) (l₀ l : Log S) (e : DownloadError)
      → l.attempts ≡ l₀.attempts + 1
      → length l.sleeps ≡ length l₀.sleeps
      → Sound download l
      → Reports download k l₀ (give_up url turn e l)
  gives_up-Reports k turn l₀ l e a b v =
      last-Reports download k l₀ _ (throws e)
        (record { pauses = v.pauses; worthwhile = v.worthwhile }) (omega (arith, a))
        (omega (arith, b)) (λ h. cc) (λ x h. cc)

  -- An error that is worth a retry.
  retried-Reports :
      (k attempt : ℕ) (turn : Turn) (next : Log S → Log S × Async (ℕ × ℕ)) (l₀ l : Log S)
      (e : DownloadError)
      → attempt + k ≡ max_retries
      → l.attempts ≡ l₀.attempts + 1
      → length l.sleeps ≡ length l₀.sleeps
      → Sound download l
      → Rest k next
      → is_retryable e ≡ true
      → Reports download k l₀ (
          if leb max_retries attempt
          then give_up url turn e l
          else next (pause url frag_index attempt turn e l))
  retried-Reports zero attempt turn next l₀ l e q a b v rest f =
      rw (le→leb max_retries attempt (omega arith)) (gives_up-Reports zero turn l₀ l e a b v)
  retried-Reports (suc k) attempt turn next l₀ l e q a b v rest f =
      rw (lt→leb attempt max_retries (omega arith)) (
        next-Reports download k l₀ _ _ (omega arith) (omega arith) (
          rest (pause url frag_index attempt turn e l) (record {
            pauses = (backoff-le frag_index attempt e, v.pauses);
            worthwhile = (f, v.worthwhile);
          })))

  -- An attempt, whatever it answers.
  tried-Reports :
      (k attempt : ℕ) (turn : Turn) (next : Log S → Log S × Async (ℕ × ℕ)) (l₀ l : Log S)
      (x : Async (ℕ × ℕ))
      → attempt + k ≡ max_retries
      → l.attempts ≡ l₀.attempts + 1
      → length l.sleeps ≡ length l₀.sleeps
      → Sound download l
      → Rest k next
      → x ≢ exhausted
      → ((v : ℕ × ℕ) → x ≡ returns v → (i : ℕ) × (s : S) × (download i s ≡ (l.state, returns v)))
      → Reports download k l₀ (judge url frag_index max_retries attempt turn next l x)
  tried-Reports k attempt turn next l₀ l (returns r) q a b v rest n o =
      last-Reports download k l₀ _ (returns r)
        (record { pauses = v.pauses; worthwhile = v.worthwhile }) (omega arith) (omega arith) n o
  tried-Reports k attempt turn next l₀ l (throws e) q a b v rest n o =
      elim (Bool-cases (is_retryable e)) [
        | inr f ↦ rw f (gives_up-Reports k turn l₀ l e a b v)
        | inl f ↦ rw f (retried-Reports k attempt turn next l₀ l e q a b v rest f)
      ]
  tried-Reports k attempt turn next l₀ l panics q a b v rest n o =
      last-Reports download k l₀ l panics v (omega arith) (omega arith) n o
  tried-Reports k attempt turn next l₀ l waits q a b v rest n o =
      last-Reports download k l₀ l waits v (omega arith) (omega arith) n o
  tried-Reports k attempt turn next l₀ l exhausted q a b v rest n o = absurd (n refl)

  module _ (ends : (i : ℕ) (s : S) → (download i s).1 ≢ exhausted) where
    round-Reports :
        (k attempt : ℕ) (turn : Turn) (next : Log S → Log S × Async (ℕ × ℕ)) (l : Log S)
        → attempt + k ≡ max_retries
        → Sound download l
        → Rest k next
        → Reports download k l
            (round url frag_index max_retries attempt turn (download attempt) next l)
    round-Reports k attempt turn next l q v rest = elim (Bool-cases asking.1) [
      | inl h ↦ rw h (
          tried-Reports k attempt turn next l
            (tried turn (asked l asking.0) (download attempt l.state)) _ q refl refl
            (record { pauses = v.pauses; worthwhile = v.worthwhile }) rest (ends attempt l.state)
            (λ r h. (attempt, l.state, ap (λ x. ((download attempt l.state).0, x)) h)))
      | inr h ↦ rw h (blocked-Reports k attempt next l asking.0 q v rest)
    ]
      where
        asking : SourceCircuitBreakers × Bool
        asking = allow_source (turn.before l.breakers) url turn.asked_at

    retry_loop-Reports :
        (turns : ℕ → Turn) (k attempt : ℕ) (l : Log S)
        → attempt + k ≡ max_retries
        → Sound download l
        → Reports download k l
            (retry_loop url frag_index max_retries turns download (suc k) attempt l)
    unfolding retry_loop
    retry_loop-Reports turns zero attempt l q v =
        round-Reports zero attempt (turns attempt)
          (retry_loop url frag_index max_retries turns download zero (attempt + 1)) l q v tt
    retry_loop-Reports turns (suc k) attempt l q v =
        round-Reports (suc k) attempt (turns attempt)
          (retry_loop url frag_index max_retries turns download (suc k) (attempt + 1)) l q v
          (λ l' v'. retry_loop-Reports turns k (attempt + 1) l' (omega (arith, q)) v')

    -- Whatever the breakers and the times are: when every attempt ends (an attempt may wait for ever
    -- or panic), the retry loop of a fragment ends too, after at most one attempt more than the
    -- retries that are allowed and no more pauses than retries, each of at most 1024 seconds; only
    -- errors that are worth it are retried; and an answer is one that an attempt gave, in the state
    -- that attempt left.
    pub fragment_task-Reports :
        (turns : ℕ → Turn) (breakers : SourceCircuitBreakers) (s : S)
        → Reports download max_retries
            (started breakers s)
            (fragment_task url frag_index max_retries turns download breakers s)
    unfolding fragment_task
    fragment_task-Reports turns breakers s =
        retry_loop-Reports turns max_retries 0 _ (omega arith)
          (record { pauses = tt; worthwhile = tt })
