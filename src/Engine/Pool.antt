-- ===== src/Engine/Pool.antt =====
-- crates/tachyon-engine/src/connection.rs. The pool is shared by tasks that interleave: each operation on
-- a semaphore or on the counter is an event, and so is the lookup in the map; an event that has to wait
-- changes nothing. The cleanup, which the map runs under its locks, is taken as one step. A semaphore is a place in the list of available permits, to which the hosts' map and the tasks
-- refer.
mod Counts
mod Places
mod Config
mod Balanced
mod Hosts
mod Cleaned
mod Examples
use Prim.Native.String.{String}
use ai_model_downloader.Base.{
  lookup, insert, remove, Eq, nat_eq, string_eq, lookup-insert, lookup-remove, ℕ, zero, suc, ◌+◌,
  ◌-◌, ◌*◌, ◌/◌, ◌%◌, ◌^◌, ◌≤◌, ◌<◌, min, max, ◌≡◌, refl, sym, ap, ◌∙◌, subst, ◌≢◌, ◌↔◌, ◌⊎◌, inl,
  inr, Bool, true, false, not, ◌&&◌, ◌||◌, Option, none, some, List, [], ◌∷◌, ◌++◌, map, arith,
  dec_lt, ℕ_discrete, ltb, leb, ◌==◌, if◌then◌else◌, ltb→lt, lt→ltb, leb→le, le→leb, ==_iff, lt→leb,
  ne→==, Bool-cases, Option-cases, some-eq, u8, u32, u64, u64_max, checked_add, length, get_elem?,
  set, take, drop, length-append, length-drop, length-set, All, Texts, codes, is_empty, is_some,
  same_text, to_lower, trim_start, trim_onto, trim_end, extend, before_last,
}

pub record PoolConfig : Type 0 where
  pub max_per_host : ℕ
  pub max_global : ℕ

-- How far a task with a host's permit is: acquire has yet to count it; the connection is open; its drop
-- has taken it off the counter; the global permit is given back as well.
pub data Stage : Type 0 where
  taken counted uncounted freed : Stage

pub record ConnectionPool : Type 0 where
  pub config : PoolConfig
  pub global_permits : ℕ
  pub active_count : ℕ
  pub host_semaphores : List (String × ℕ)
  pub cleanup_threshold : ℕ
  -- The available permits of each semaphore.
  pub permits : List ℕ
  -- The tasks inside acquire that have a global permit, those that have looked up a semaphore as well,
  -- the tasks that have a host's permit, and the stage of each of these.
  pub admitted : ℕ
  pub waiting : List (String × ℕ)
  pub held : List (String × ℕ)
  pub stages : List Stage

unfoldable pub new : PoolConfig → ConnectionPool
new config = record {
  config = config;
  global_permits = config.max_global;
  active_count = 0;
  host_semaphores = [];
  cleanup_threshold = max (config.max_global * 2) 64;
  permits = [];
  admitted = 0;
  waiting = [];
  held = [];
  stages = [];
}

-- Of an unknown semaphore there are none.
abbrev pub or_zero : Option ℕ → ℕ
or_zero none = 0
or_zero (some n) = n

abbrev pub available : List ℕ → ℕ → ℕ
available permits s = or_zero (get_elem? permits s)

abbrev pub wait_for : String → ℕ → ConnectionPool → ConnectionPool
wait_for host s p = record p { admitted = p.admitted - 1; waiting = (host, s) ∷ p.waiting }

-- `get`, or `or_insert_with` a new semaphore.
abbrev pub host_semaphore : String → Option ℕ → ConnectionPool → ConnectionPool
host_semaphore host (some s) p = wait_for host s p
host_semaphore host none p = wait_for host (length p.permits) (record p {
  host_semaphores = insert host (length p.permits) p.host_semaphores;
  permits = p.permits ++ (p.config.max_per_host ∷ []);
})

-- The i-th element of a list, and the others.
abbrev pub onto :
    String × ℕ
    → Option ((String × ℕ) × List (String × ℕ))
    → Option ((String × ℕ) × List (String × ℕ))
onto x none = none
onto x (some (y, rest)) = some (y, x ∷ rest)

abbrev pub pull : ℕ → List (String × ℕ) → Option ((String × ℕ) × List (String × ℕ))
pull i [] = none
pull zero (x ∷ xs) = some (x, xs)
pull (suc i) (x ∷ xs) = onto x (pull i xs)

-- The host's permit, if there is one, is taken.
abbrev pub take_permit : Option ((String × ℕ) × List (String × ℕ)) → ConnectionPool → ConnectionPool
take_permit none p = p
take_permit (some ((host, s), rest)) p =
    if ltb 0 (available p.permits s)
    then record p {
      permits = set p.permits s (available p.permits s - 1);
      waiting = rest;
      held = (host, s) ∷ p.held;
      stages = taken ∷ p.stages;
    }
    else p

abbrev pub remove_at : ℕ → List Stage → List Stage
remove_at i [] = []
remove_at zero (x ∷ xs) = xs
remove_at (suc i) (x ∷ xs) = x ∷ remove_at i xs

-- The host's permit is given back.
abbrev pub drop_permit :
    ℕ → Option ((String × ℕ) × List (String × ℕ)) → ConnectionPool → ConnectionPool
drop_permit i none p = p
drop_permit i (some ((host, s), rest)) p = record p {
  permits = set p.permits s (available p.permits s + 1);
  held = rest;
  stages = remove_at i p.stages;
}

-- The next step of a task with a host's permit: `fetch_add`, `fetch_sub`, the drop of the global permit,
-- the drop of the host's permit.
abbrev pub go_on : ℕ → Option Stage → ConnectionPool → ConnectionPool
go_on i none p = p
go_on i (some taken) p = record p {
  active_count = p.active_count + 1;
  stages = set p.stages i counted;
}
go_on i (some counted) p = record p {
  active_count = p.active_count - 1;
  stages = set p.stages i uncounted;
}
go_on i (some uncounted) p = record p {
  global_permits = p.global_permits + 1;
  stages = set p.stages i freed;
}
go_on i (some freed) p = drop_permit i (pull i p.held) p

-- A task that is dropped inside acquire gives its global permit back.
abbrev pub stop_waiting :
    Option ((String × ℕ) × List (String × ℕ)) → ConnectionPool → ConnectionPool
stop_waiting none p = p
stop_waiting (some (x, rest)) p = record p { global_permits = p.global_permits + 1; waiting = rest }

-- `retain`: the hosts whose semaphore is in use stay.
unfoldable pub in_use : ℕ → List ℕ → List (String × ℕ) → List (String × ℕ)
in_use limit permits [] = []
in_use limit permits ((host, s) ∷ hosts) =
    let rest = in_use limit permits hosts in
    if ltb (available permits s) limit then (host, s) ∷ rest else rest

unfoldable pub cleanup_idle_hosts : ConnectionPool → ConnectionPool
cleanup_idle_hosts p = record p {
  host_semaphores = in_use p.config.max_per_host p.permits p.host_semaphores;
}

pub data Event : Type 0 where
  -- acquire: the global permit, the lookup, the host's permit of a waiting task, the check for a cleanup.
  admits : Event
  looks_up : String → Event
  takes : ℕ → Event
  checks : Event
  -- A task leaves acquire before or after the lookup, and one with a host's permit goes on.
  leaves : Event
  abandons goes_on : ℕ → Event
  cleans : Event

unfoldable pub step : ConnectionPool → Event → ConnectionPool
unfolding cleanup_idle_hosts
step p admits =
    if ltb 0 p.global_permits
    then record p { global_permits = p.global_permits - 1; admitted = p.admitted + 1 }
    else p
step p (looks_up host) =
    if ltb 0 p.admitted then host_semaphore host (lookup host p.host_semaphores) p else p
step p (takes i) = take_permit (pull i p.waiting) p
step p checks =
    if ltb p.cleanup_threshold (length p.host_semaphores) then cleanup_idle_hosts p else p
step p leaves =
    if ltb 0 p.admitted
    then record p { global_permits = p.global_permits + 1; admitted = p.admitted - 1 }
    else p
step p (abandons i) = stop_waiting (pull i p.waiting) p
step p (goes_on i) = go_on i (get_elem? p.stages i) p
step p cleans = cleanup_idle_hosts p

unfoldable pub run : ConnectionPool → List Event → ConnectionPool
run p [] = p
run p (e ∷ es) = run (step p e) es
