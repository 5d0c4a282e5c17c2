-- ===== src/Engine/Circuit/Trips.antt =====
-- circuit_breaker.rs: when a single breaker opens, and what it lets through.
use ai_model_downloader.Base.{
  ℕ, suc, ◌+◌, ◌-◌, ◌≤◌, ◌<◌, ◌≡◌, refl, true, Option, none, some, List, [], ◌∷◌, arith, leb, ltb,
  if◌then◌else◌, length, ◌&&◌,
}
use ai_model_downloader.Engine.Circuit.{
  CircuitBreaker, CircuitState, new, state, allow, record_success, record_failure,
}

-- What happens to a breaker; the number is the time of the call.
pub data Event : Type 0 where
  asks fails : ℕ → Event
  succeeds : Event

unfoldable pub step : CircuitBreaker → Event → CircuitBreaker
step c (asks now) = (allow c now).0
step c (fails now) = record_failure c now
step c succeeds = record_success c

unfoldable pub run : CircuitBreaker → List Event → CircuitBreaker
run c [] = c
run c (e ∷ es) = run (step c e) es

-- The failures since the last success, and when the last failure was.
unfoldable pub failures_after : ℕ → List Event → ℕ
failures_after n [] = n
failures_after n (asks t ∷ es) = failures_after n es
failures_after n (fails t ∷ es) = failures_after (suc n) es
failures_after n (succeeds ∷ es) = failures_after 0 es

unfoldable pub last_failure_after : ℕ → List Event → ℕ
last_failure_after t [] = t
last_failure_after t (asks now ∷ es) = last_failure_after t es
last_failure_after t (fails now ∷ es) = last_failure_after now es
last_failure_after t (succeeds ∷ es) = last_failure_after t es

-- The breaker as its history determines it.
abbrev trip : ℕ → ℕ → ℕ → Option ℕ
trip threshold n t = if ltb 0 n && leb threshold n then some t else none

record Tracks (threshold duration n t : ℕ) (c : CircuitBreaker) : Type 0 where
  counted : c.failure_count ≡ n
  tripped : c.opened_at ≡ trip threshold n t
  threshold_kept : c.failure_threshold ≡ threshold
  duration_kept : c.open_duration ≡ duration

allow-Tracks :
    (threshold duration n t : ℕ) (c : CircuitBreaker) (now : ℕ)
    → Tracks threshold duration n t c
    → Tracks threshold duration n t (allow c now).0
unfolding allow
allow-Tracks threshold duration n t c now h = ground arith

fail-Tracks :
    (threshold duration n t : ℕ) (c : CircuitBreaker) (now : ℕ)
    → suc n < 4294967296
    → Tracks threshold duration n t c
    → Tracks threshold duration (suc n) now (record_failure c now)
unfolding record_failure
fail-Tracks threshold duration n t c now b h = ground arith

success-Tracks :
    (threshold duration n t : ℕ) (c : CircuitBreaker)
    → Tracks threshold duration n t c
    → Tracks threshold duration 0 t (record_success c)
unfolding record_success
success-Tracks threshold duration n t c h = ground arith

run-Tracks :
    (threshold duration n t : ℕ) (c : CircuitBreaker) (es : List Event)
    → n + length es < 4294967296
    → Tracks threshold duration n t c
    → Tracks threshold duration (failures_after n es) (last_failure_after t es) (run c es)
unfolding run step failures_after last_failure_after
run-Tracks threshold duration n t c [] b h = h
run-Tracks threshold duration n t c (asks now ∷ es) b h =
    run-Tracks threshold duration n t (allow c now).0 es (omega arith)
      (allow-Tracks threshold duration n t c now h)
run-Tracks threshold duration n t c (fails now ∷ es) b h =
    run-Tracks threshold duration (suc n) now (record_failure c now) es (omega arith)
      (fail-Tracks threshold duration n t c now (omega arith) h)
run-Tracks threshold duration n t c (succeeds ∷ es) b h =
    run-Tracks threshold duration 0 t (record_success c) es (omega arith)
      (success-Tracks threshold duration n t c h)

-- What a history of calls makes of a new breaker: closed while there are no failures since the last
-- success or fewer than the threshold, else open for `duration` from the last failure on.
abbrev pub state_after : ℕ → ℕ → List Event → ℕ → CircuitState
state_after threshold duration es now =
    if ltb 0 (failures_after 0 es) && leb threshold (failures_after 0 es)
    then (if leb duration (now - last_failure_after 0 es)
        then CircuitState.half_open
        else CircuitState.open_)
    else CircuitState.closed

-- After any history shorter than 2^32 calls, the state of a breaker is closed if no failure, or fewer
-- than the threshold, came after the last success; else it is open until `duration` has passed since
-- the last failure, and half open from then on.
pub state-run :
    (threshold duration : ℕ) (es : List Event) (now : ℕ)
    → length es < 4294967296
    → state (run (new threshold duration) es) now ≡ state_after threshold duration es now
unfolding state new
state-run threshold duration es now b = ground (arith, tracked)
  where
    tracked :
        Tracks threshold duration
          (failures_after 0 es)
          (last_failure_after 0 es)
          (run (new threshold duration) es)
    tracked =
        run-Tracks threshold duration 0 0 (new threshold duration) es (omega arith)
          (record { counted = refl; tripped = refl; threshold_kept = refl; duration_kept = refl })

-- A run of requests with no outcome recorded in between.
unfoldable pub ask_all : CircuitBreaker → List ℕ → CircuitBreaker × ℕ
ask_all c [] = (c, 0)
ask_all c (t ∷ ts) =
    let (c', allowed) = allow c t in
    let (c'', n) = ask_all c' ts in (c'', if allowed then suc n else n)

ask_all_sent :
    (c : CircuitBreaker) (opened : ℕ) (ts : List ℕ)
    → c.opened_at ≡ some opened
    → c.half_open_probe_sent ≡ true
    → (ask_all c ts ≡ (c, 0))
unfolding ask_all allow
ask_all_sent c opened [] o s = refl
ask_all_sent c opened (t ∷ ts) o s = ground (arith, ask_all_sent c opened ts o s)

-- Once a breaker has tripped, at most one request gets through before an outcome is recorded, at
-- whatever times the requests come.
pub ask_all-le_one :
    (c : CircuitBreaker) (opened : ℕ) (ts : List ℕ)
    → c.opened_at ≡ some opened
    → (ask_all c ts).1 ≤ 1
unfolding ask_all allow
ask_all-le_one c opened [] o = omega arith
ask_all-le_one c opened (t ∷ ts) o = ground (
  arith,
  ask_all-le_one c opened ts o,
  ask_all_sent (record c { half_open_probe_sent = true }) opened ts,
)

-- If the probe's outcome is never recorded (its task was aborted), no later request gets through.
pub ask_all_lost_probe :
    (c : CircuitBreaker) (opened t : ℕ) (ts : List ℕ)
    → c.opened_at ≡ some opened
    → (allow c t).1 ≡ true
    → (ask_all (allow c t).0 ts).1 ≡ 0
unfolding allow
ask_all_lost_probe c opened t ts o a =
    ground (arith, ask_all_sent (record c { half_open_probe_sent = true }) opened ts)
