-- ===== src/Engine/Pool/Examples.antt =====
-- Interleavings of connection.rs on concrete pools.
use ai_model_downloader.Base.{lookup, insert, nat_eq, string_eq, ◌≡◌, refl, List, [], ◌∷◌, arith}
use ai_model_downloader.Engine.Pool.{
  PoolConfig, new, in_use, cleanup_idle_hosts, Event, admits, looks_up, takes, checks, goes_on,
  cleans, step, run,
}
use ai_model_downloader.Engine.Pool.Balanced.{Balanced, run-Balanced}
use ai_model_downloader.Engine.Pool.Cleaned.{cleaned_between, cleaned_over_limit}
use ai_model_downloader.Engine.Pool.Hosts.{of_host}

abbrev two_hosts : List Event
two_hosts =
    admits
    ∷ looks_up "a.example"
    ∷ takes 0
    ∷ checks
    ∷ admits
    ∷ looks_up "b.example"
    ∷ takes 0
    ∷ goes_on 1
    ∷ goes_on 1
    ∷ goes_on 1
    ∷ goes_on 1
    ∷ cleans
    ∷ admits
    ∷ looks_up "b.example"
    ∷ takes 0
    ∷ []

abbrev small : PoolConfig
small = record { max_per_host = 2; max_global = 3 }

run-Balanced_example :
    Balanced (run (new small) two_hosts) × ((run (new small) two_hosts).config ≡ small)
run-Balanced_example = run-Balanced small two_hosts

two_to_b : of_host "b.example" (run (new small) two_hosts).held ≡ 2
unfolding new run step in_use cleanup_idle_hosts lookup insert
two_to_b = refl

cleaned_over_limit_example :
    let p =
      run (new (record { max_per_host = 1; max_global = 256 })) (cleaned_between "a.example") in
    (of_host "a.example" p.held ≡ 2) × (p.active_count ≡ 2)
cleaned_over_limit_example = cleaned_over_limit "a.example" 256 (omega arith)
