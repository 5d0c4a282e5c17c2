-- ===== src/Engine/Circuit.antt =====
-- crates/tachyon-engine/src/circuit_breaker.rs. A call takes the time, `Instant::now()`, as an
-- argument; `elapsed` stops at 0 as `Instant::elapsed` does. The shared map behind its mutex is a
-- value that each operation returns anew.
mod Trips
mod Sources
mod Examples
use Prim.Native.String.{String}
use ai_model_downloader.Base.{
  ℕ, ◌+◌, ◌-◌, Bool, true, false, Option, none, some, List, [], ◌∷◌, leb, if◌then◌else◌, u32,
  lookup, insert, string_eq,
}

pub data CircuitState : Type 0 where
  closed open_ half_open : CircuitState

pub record CircuitBreaker : Type 0 where
  pub failure_count : ℕ
  pub failure_threshold : ℕ
  pub open_duration : ℕ
  pub opened_at : Option ℕ
  pub half_open_probe_sent : Bool

unfoldable pub new : ℕ → ℕ → CircuitBreaker
new failure_threshold open_duration = record {
  failure_count = 0;
  failure_threshold = failure_threshold;
  open_duration = open_duration;
  opened_at = none;
  half_open_probe_sent = false;
}

abbrev state_of : Option ℕ → ℕ → ℕ → CircuitState
state_of none open_duration now = CircuitState.closed
state_of (some opened_at) open_duration now =
    if leb open_duration (now - opened_at) then CircuitState.half_open else CircuitState.open_

unfoldable pub state : CircuitBreaker → ℕ → CircuitState
state c now = state_of c.opened_at c.open_duration now

abbrev allow_in : CircuitState → CircuitBreaker → CircuitBreaker × Bool
allow_in CircuitState.closed c = (c, true)
allow_in CircuitState.open_ c = (c, false)
allow_in CircuitState.half_open c =
    if c.half_open_probe_sent then (c, false) else (record c { half_open_probe_sent = true }, true)

unfoldable pub allow : CircuitBreaker → ℕ → CircuitBreaker × Bool
unfolding state
allow c now = allow_in (state c now) c

unfoldable pub record_success : CircuitBreaker → CircuitBreaker
record_success c = record c { failure_count = 0; opened_at = none; half_open_probe_sent = false }

unfoldable pub record_failure : CircuitBreaker → ℕ → CircuitBreaker
record_failure c now =
    let counted = record c { failure_count = u32 (c.failure_count + 1) } in
    if leb c.failure_threshold counted.failure_count
    then record counted { opened_at = some now; half_open_probe_sent = false }
    else counted

pub record SourceCircuitBreakers : Type 0 where
  pub breakers : List (String × CircuitBreaker)
  pub failure_threshold : ℕ
  pub open_duration : ℕ

-- `entry(source).or_insert_with(new)`: the breaker that the call works on.
unfoldable pub breaker : SourceCircuitBreakers → String → CircuitBreaker
breaker s source = elim (lookup source s.breakers) [
  | none ↦ new s.failure_threshold s.open_duration
  | some c ↦ c
]

abbrev put : SourceCircuitBreakers → String → CircuitBreaker → SourceCircuitBreakers
put s source c = record s { breakers = insert source c s.breakers }

unfoldable pub allow_source : SourceCircuitBreakers → String → ℕ → SourceCircuitBreakers × Bool
allow_source s source now =
    let (c, allowed) = allow (breaker s source) now in (put s source c, allowed)

unfoldable pub record_source_success : SourceCircuitBreakers → String → SourceCircuitBreakers
record_source_success s source = elim (lookup source s.breakers) [
  | none ↦ s
  | some c ↦ put s source (record_success c)
]

unfoldable pub record_source_failure : SourceCircuitBreakers → String → ℕ → SourceCircuitBreakers
record_source_failure s source now = put s source (record_failure (breaker s source) now)
