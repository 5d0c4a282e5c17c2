-- ===== src/Engine/Circuit/Sources.antt =====
-- SourceCircuitBreakers of circuit_breaker.rs: the map of breakers, source by source.
use Prim.Native.String.{String}
use ai_model_downloader.Base.{
  ℕ, ◌≡◌, refl, none, some, arith, if◌then◌else◌, lookup, insert, string_eq, lookup-insert,
  Option-cases, inl, inr,
}
use ai_model_downloader.Engine.Circuit.{
  CircuitBreaker, SourceCircuitBreakers, new, allow, record_success, record_failure, breaker,
  allow_source, record_source_success, record_source_failure,
}

-- A write to one source is seen at that source only.
breaker-put :
    (s : SourceCircuitBreakers) (source other : String) (c : CircuitBreaker)
    → breaker (record s { breakers = insert source c s.breakers }) other
      ≡ (if string_eq.beq source other then c else breaker s other)
unfolding breaker
breaker-put s source other c = ground (arith, lookup-insert source other c s.breakers)

success-absent :
    (s : SourceCircuitBreakers) (source other : String)
    → lookup source s.breakers ≡ none
    → breaker s other
      ≡ (if string_eq.beq source other then record_success (breaker s other) else breaker s other)
unfolding breaker record_success new
success-absent s source other e = ground (arith, string_eq.beq_iff source other)

success-present :
    (s : SourceCircuitBreakers) (source other : String) (c : CircuitBreaker)
    → lookup source s.breakers ≡ some c
    → breaker (record s { breakers = insert source (record_success c) s.breakers }) other
      ≡ (if string_eq.beq source other then record_success (breaker s other) else breaker s other)
success-present s source other c e =
    rw breaker-put (unfold breaker in ground (arith, string_eq.beq_iff source other))

-- Each operation on the shared map acts on the breaker of its source as the operation on that one
-- breaker, answers as it answers, and leaves the breaker of every other source alone; a source that
-- has no entry yet counts as one with a new breaker.
pub sources_independent :
    (s : SourceCircuitBreakers) (source other : String) (now : ℕ)
    → let same = string_eq.beq source other in
      (breaker (allow_source s source now).0 other
        ≡ (if same then (allow (breaker s other) now).0 else breaker s other))
      × ((allow_source s source now).1 ≡ (allow (breaker s source) now).1)
      × (breaker (record_source_success s source) other
          ≡ (if same then record_success (breaker s other) else breaker s other))
      × (breaker (record_source_failure s source now) other
          ≡ (if same then record_failure (breaker s other) now else breaker s other))
unfolding allow_source record_source_success record_source_failure
sources_independent s source other now = (
  rw breaker-put (ground (arith, string_eq.beq_iff source other)),
  refl,
  elim (Option-cases (lookup source s.breakers)) [
    | inl e ↦ rw (e, record_source_success) (success-absent s source other e)
    | inr (c, e) ↦ rw (e, record_source_success) (success-present s source other c e)
  ],
  rw breaker-put (ground (arith, string_eq.beq_iff source other)),
)
