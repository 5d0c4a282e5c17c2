-- ===== src/Engine/Pool/Cleaned.antt =====
-- connection.rs: a cleanup between the lookup of a semaphore and the acquisition of its permit.
use Prim.Native.String.{String}
use ai_model_downloader.Base.{lookup, insert, nat_eq, string_eq, ℕ, ◌≤◌, ◌≡◌, List, [], ◌∷◌, arith}
use ai_model_downloader.Engine.Pool.{
  new, in_use, cleanup_idle_hosts, Event, admits, looks_up, takes, cleans, goes_on, step, run,
}
use ai_model_downloader.Engine.Pool.Hosts.{of_host}

-- A task looks up the semaphore of a host, the map is cleaned, and another task looks the host up.
abbrev pub cleaned_between : String → List Event
cleaned_between host =
    admits
    ∷ looks_up host
    ∷ cleans
    ∷ admits
    ∷ looks_up host
    ∷ takes 1
    ∷ takes 0
    ∷ goes_on 0
    ∷ goes_on 1
    ∷ []

-- Where the map of hosts is cleaned while a task waits for its host's permit, that task and a later one
-- are given the same host by two semaphores: with a limit of 1 per host, two connections to it are open.
pub cleaned_over_limit :
    (host : String) (max_global : ℕ)
    → 2 ≤ max_global
    → let p =
        run (new (record { max_per_host = 1; max_global = max_global })) (cleaned_between host) in
      (of_host host p.held ≡ 2) × (p.active_count ≡ 2)
unfolding new run step in_use cleanup_idle_hosts lookup insert
cleaned_over_limit host max_global h =
    (ground (arith, string_eq.beq_iff host host), ground (arith, string_eq.beq_iff host host))
