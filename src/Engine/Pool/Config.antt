-- ===== src/Engine/Pool/Config.antt =====
-- connection.rs: no step changes the configuration.
use Prim.Native.String.{String}
use ai_model_downloader.Base.{
  lookup, nat_eq, string_eq, ℕ, ◌≡◌, refl, ◌∙◌, inl, inr, Option, none, some, List, [], ◌∷◌, arith,
  ltb, Bool-cases, length, get_elem?,
}
use ai_model_downloader.Engine.Pool.{
  ConnectionPool, available, host_semaphore, pull, take_permit, drop_permit, go_on, Stage, taken,
  counted, uncounted, freed, stop_waiting, cleanup_idle_hosts, Event, admits, looks_up, takes,
  checks, leaves, abandons, goes_on, cleans, step, run,
}

looked_up-config :
    (host : String) (o : Option ℕ) (p : ConnectionPool)
    → (host_semaphore host o p).config ≡ p.config
looked_up-config host none p = refl
looked_up-config host (some s) p = refl

take-config :
    (o : Option ((String × ℕ) × List (String × ℕ))) (p : ConnectionPool)
    → (take_permit o p).config ≡ p.config
take-config none p = refl
take-config (some ((host, s), rest)) p = elim (Bool-cases (ltb 0 (available p.permits s))) [
  | inl e ↦ rw e refl
  | inr e ↦ rw e refl
]

drop-config :
    (i : ℕ) (o : Option ((String × ℕ) × List (String × ℕ))) (p : ConnectionPool)
    → (drop_permit i o p).config ≡ p.config
drop-config i none p = refl
drop-config i (some ((host, s), rest)) p = refl

go_on-config : (i : ℕ) (o : Option Stage) (p : ConnectionPool) → (go_on i o p).config ≡ p.config
go_on-config i none p = refl
go_on-config i (some taken) p = refl
go_on-config i (some counted) p = refl
go_on-config i (some uncounted) p = refl
go_on-config i (some freed) p = drop-config i (pull i p.held) p

stop-config :
    (o : Option ((String × ℕ) × List (String × ℕ))) (p : ConnectionPool)
    → (stop_waiting o p).config ≡ p.config
stop-config none p = refl
stop-config (some (x, rest)) p = refl

pub step-config : (p : ConnectionPool) (e : Event) → (step p e).config ≡ p.config
unfolding step cleanup_idle_hosts
step-config p admits = ground arith
step-config p (looks_up host) = elim (Bool-cases (ltb 0 p.admitted)) [
  | inl e ↦ rw e (looked_up-config host (lookup host p.host_semaphores) p)
  | inr e ↦ rw e refl
]
step-config p (takes i) = take-config (pull i p.waiting) p
step-config p checks = elim (Bool-cases (ltb p.cleanup_threshold (length p.host_semaphores))) [
  | inl e ↦ rw e refl
  | inr e ↦ rw e refl
]
step-config p leaves = ground arith
step-config p (abandons i) = stop-config (pull i p.waiting) p
step-config p (goes_on i) = go_on-config i (get_elem? p.stages i) p
step-config p cleans = refl

pub run-config : (p : ConnectionPool) (es : List Event) → (run p es).config ≡ p.config
unfolding run
run-config p [] = refl
run-config p (e ∷ es) = run-config (step p e) es ∙ step-config p e
