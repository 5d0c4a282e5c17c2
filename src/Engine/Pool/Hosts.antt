-- ===== src/Engine/Pool/Hosts.antt =====
-- connection.rs: the connections of one host.
use Prim.Native.String.{String}
use ai_model_downloader.Base.{
  lookup, nat_eq, string_eq, ℕ, ◌+◌, ◌≡◌, some, List, [], ◌∷◌, if◌then◌else◌, All,
}
use ai_model_downloader.Engine.Pool.{ConnectionPool, Event, checks, cleans, step}
use ai_model_downloader.Engine.Pool.Balanced.{Balanced}

abbrev pub of_host : String → List (String × ℕ) → ℕ
of_host host [] = 0
of_host host ((h, s) ∷ rest) = (if string_eq.beq h host then 1 else 0) + of_host host rest

-- No task waits for a host's permit while the map of hosts is cleaned.
abbrev pub Calm : ConnectionPool → Event → Type 0
Calm p checks = p.waiting ≡ []
Calm p cleans = p.waiting ≡ []
Calm p _ = Unit {0}

abbrev pub Quiet : ConnectionPool → List Event → Type 0
Quiet p [] = Unit {0}
Quiet p (e ∷ es) = Calm p e × Quiet (step p e) es

abbrev Current : List (String × ℕ) → String × ℕ → Type 0
Current hosts x = lookup x.0 hosts ≡ some x.1

-- Every connection counts against the semaphore that the map has for its host.
record Stable (p : ConnectionPool) : Type 0 where
  held : All (Current p.host_semaphores) p.held
  waiting : All (Current p.host_semaphores) p.waiting
