-- ===== src/Engine/Pool/Balanced.antt =====
-- connection.rs: the permits of the semaphores along any events.
use Prim.Native.String.{String}
use ai_model_downloader.Base.{
  lookup, nat_eq, string_eq, ℕ, ◌+◌, ◌-◌, ◌<◌, ◌≡◌, refl, subst, ◌≢◌, inl, inr, Option, none, some,
  List, [], ◌∷◌, ◌++◌, arith, ltb, ◌==◌, ltb→lt, ==_iff, Bool-cases, length, get_elem?, set,
  length-append, length-set, All,
}
use ai_model_downloader.Engine.Pool.{
  PoolConfig, ConnectionPool, new, available, host_semaphore, pull, take_permit, drop_permit, go_on,
  Stage, taken, counted, uncounted, freed, stop_waiting, cleanup_idle_hosts, Event, admits,
  looks_up, takes, checks, leaves, abandons, goes_on, cleans, step, run,
}
use ai_model_downloader.Engine.Pool.Counts.{
  uses, Pulled, pull-Pulled, get-set, get-append, Known, is_counted, is_freed, how_many,
  how_many-set, how_many-remove_at, length-remove_at, length-set_stage,
}
use ai_model_downloader.Engine.Pool.Places.{
  unknown_uses, Known-longer, Known-set, insert-Known, lookup-Known, in_use-Known,
}
use ai_model_downloader.Engine.Pool.Config.{run-config}

-- The global permits and those of each semaphore are all accounted for, and the counter of active
-- connections is right.
pub record Balanced (p : ConnectionPool) : Type 0 where
  pub global :
      p.global_permits + p.admitted + length p.waiting + length p.held
      ≡ p.config.max_global + how_many is_freed p.stages
  pub active : p.active_count ≡ how_many is_counted p.stages
  pub each :
      (s : ℕ) → s < length p.permits → available p.permits s + uses s p.held ≡ p.config.max_per_host
  pub staged : length p.stages ≡ length p.held
  pub held_known : All (Known p.permits) p.held
  pub waiting_known : All (Known p.permits) p.waiting
  pub hosts_known : All (Known p.permits) p.host_semaphores

admits-Balanced : (p : ConnectionPool) → Balanced p → Balanced (step p admits)
unfolding step
admits-Balanced p v = elim (Bool-cases (ltb 0 p.global_permits)) [
  | inl e ↦ rw e (record {
    global = omega (arith, v.global, ltb→lt 0 p.global_permits e);
    active = v.active;
    each = v.each;
    staged = v.staged;
    held_known = v.held_known;
    waiting_known = v.waiting_known;
    hosts_known = v.hosts_known;
  })
  | inr e ↦ rw e v
]

leaves-Balanced : (p : ConnectionPool) → Balanced p → Balanced (step p leaves)
unfolding step
leaves-Balanced p v = elim (Bool-cases (ltb 0 p.admitted)) [
  | inl e ↦ rw e (record {
    global = omega (arith, v.global, ltb→lt 0 p.admitted e);
    active = v.active;
    each = v.each;
    staged = v.staged;
    held_known = v.held_known;
    waiting_known = v.waiting_known;
    hosts_known = v.hosts_known;
  })
  | inr e ↦ rw e v
]

looked_up-Balanced :
    (host : String) (o : Option ℕ) (p : ConnectionPool)
    → lookup host p.host_semaphores ≡ o
    → 0 < p.admitted
    → Balanced p
    → Balanced (host_semaphore host o p)
looked_up-Balanced host (some s) p h a v = record {
  global = omega (arith, v.global);
  active = v.active;
  each = v.each;
  staged = v.staged;
  held_known = v.held_known;
  waiting_known =
      (lookup-Known p.permits host p.host_semaphores s v.hosts_known h, v.waiting_known);
  hosts_known = v.hosts_known;
}
looked_up-Balanced host none p h a v = record {
  global = omega (arith, v.global);
  active = v.active;
  each = added;
  staged = v.staged;
  held_known = Known-longer p.permits p.config.max_per_host p.held v.held_known;
  waiting_known = (longer, Known-longer p.permits p.config.max_per_host p.waiting v.waiting_known);
  hosts_known =
      insert-Known (p.permits ++ (p.config.max_per_host ∷ [])) host (length p.permits)
        p.host_semaphores longer
        (Known-longer p.permits p.config.max_per_host p.host_semaphores v.hosts_known);
}
  where
    longer : length p.permits < length (p.permits ++ (p.config.max_per_host ∷ []))
    longer = omega (arith, length-append p.permits (p.config.max_per_host ∷ []))

    added :
        (s : ℕ)
        → s < length (p.permits ++ (p.config.max_per_host ∷ []))
        → available (p.permits ++ (p.config.max_per_host ∷ [])) s + uses s p.held
          ≡ p.config.max_per_host
    added s h = elim (Bool-cases (length p.permits == s)) [
      | inl e ↦
          let same : length p.permits ≡ s = (==_iff (length p.permits) s).0 e in
          let unused : uses s p.held ≡ 0 =
            unknown_uses s p.held (subst (λ t. All (λ x. x.1 < t) p.held) same v.held_known) in
          let a' : available (p.permits ++ (p.config.max_per_host ∷ [])) s ≡ p.config.max_per_host =
            ground (arith, get-append p.permits p.config.max_per_host s) in
          omega arith
      | inr e ↦
          let ne : length p.permits ≢ s = ground arith in
          let a' : available (p.permits ++ (p.config.max_per_host ∷ [])) s ≡ available p.permits s =
            ground (arith, get-append p.permits p.config.max_per_host s) in
          let below : s < length p.permits =
            omega (arith, length-append p.permits (p.config.max_per_host ∷ []), ne) in
          omega (arith, v.each s below)
    ]

take-Balanced :
    (p : ConnectionPool) (i : ℕ) (o : Option ((String × ℕ) × List (String × ℕ)))
    → pull i p.waiting ≡ o
    → Balanced p
    → Balanced (take_permit o p)
take-Balanced p i none h v = v
take-Balanced p i (some ((host, s), rest)) h v = elim (Bool-cases (ltb 0 (available p.permits s))) [
  | inl e ↦
      rw e (moved (pull-Pulled i p.waiting (host, s) rest h) (ltb→lt 0 (available p.permits s) e))
  | inr e ↦ rw e v
]
  where
    moved :
        Pulled (host, s) rest p.waiting
        → 0 < available p.permits s
        → Balanced (record p {
          permits = set p.permits s (available p.permits s - 1);
          waiting = rest;
          held = (host, s) ∷ p.held;
          stages = taken ∷ p.stages;
        })
    moved pd free =
        let (known, rest_known) = pd.keeps (Known p.permits) v.waiting_known in
        let left = available p.permits s - 1 in
        record {
          global = omega (arith, v.global, pd.size);
          active = omega (arith, v.active);
          each = λ t b. ground (
            arith,
            get-set p.permits s t left known,
            v.each t (omega (arith, length-set p.permits s left)),
          );
          staged = omega (arith, v.staged);
          held_known = (
            omega (arith, length-set p.permits s left),
            Known-set p.permits s left p.held v.held_known,
          );
          waiting_known = Known-set p.permits s left rest rest_known;
          hosts_known = Known-set p.permits s left p.host_semaphores v.hosts_known;
        }

drop-Balanced :
    (p : ConnectionPool) (i : ℕ) (o : Option ((String × ℕ) × List (String × ℕ)))
    → pull i p.held ≡ o
    → get_elem? p.stages i ≡ some freed
    → Balanced p
    → Balanced (drop_permit i o p)
drop-Balanced p i none h g v = v
drop-Balanced p i (some ((host, s), rest)) h g v =
    let pd = pull-Pulled i p.held (host, s) rest h in
    let (known, rest_known) = pd.keeps (Known p.permits) v.held_known in
    let more = available p.permits s + 1 in
    record {
      global = omega (arith, v.global, pd.size, how_many-remove_at is_freed p.stages i freed g);
      active = omega (arith, v.active, how_many-remove_at is_counted p.stages i freed g);
      each = λ t b. ground (
        arith,
        get-set p.permits s t more known,
        pd.counts t,
        v.each t (omega (arith, length-set p.permits s more)),
      );
      staged = omega (arith, v.staged, pd.size, length-remove_at p.stages i freed g);
      held_known = Known-set p.permits s more rest rest_known;
      waiting_known = Known-set p.permits s more p.waiting v.waiting_known;
      hosts_known = Known-set p.permits s more p.host_semaphores v.hosts_known;
    }

go_on-Balanced :
    (p : ConnectionPool) (i : ℕ) (o : Option Stage)
    → get_elem? p.stages i ≡ o
    → Balanced p
    → Balanced (go_on i o p)
go_on-Balanced p i none g v = v
go_on-Balanced p i (some taken) g v = record {
  global = omega (arith, v.global, how_many-set is_freed p.stages i taken counted g);
  active = omega (arith, v.active, how_many-set is_counted p.stages i taken counted g);
  each = v.each;
  staged = omega (arith, v.staged, length-set_stage p.stages i counted);
  held_known = v.held_known;
  waiting_known = v.waiting_known;
  hosts_known = v.hosts_known;
}
go_on-Balanced p i (some counted) g v = record {
  global = omega (arith, v.global, how_many-set is_freed p.stages i counted uncounted g);
  active = omega (arith, v.active, how_many-set is_counted p.stages i counted uncounted g);
  each = v.each;
  staged = omega (arith, v.staged, length-set_stage p.stages i uncounted);
  held_known = v.held_known;
  waiting_known = v.waiting_known;
  hosts_known = v.hosts_known;
}
go_on-Balanced p i (some uncounted) g v = record {
  global = omega (arith, v.global, how_many-set is_freed p.stages i uncounted freed g);
  active = omega (arith, v.active, how_many-set is_counted p.stages i uncounted freed g);
  each = v.each;
  staged = omega (arith, v.staged, length-set_stage p.stages i freed);
  held_known = v.held_known;
  waiting_known = v.waiting_known;
  hosts_known = v.hosts_known;
}
go_on-Balanced p i (some freed) g v = drop-Balanced p i (pull i p.held) refl g v

stop-Balanced :
    (p : ConnectionPool) (i : ℕ) (o : Option ((String × ℕ) × List (String × ℕ)))
    → pull i p.waiting ≡ o
    → Balanced p
    → Balanced (stop_waiting o p)
stop-Balanced p i none h v = v
stop-Balanced p i (some (x, rest)) h v =
    let pd = pull-Pulled i p.waiting x rest h in
    record {
      global = omega (arith, v.global, pd.size);
      active = v.active;
      each = v.each;
      staged = v.staged;
      held_known = v.held_known;
      waiting_known = (pd.keeps (Known p.permits) v.waiting_known).1;
      hosts_known = v.hosts_known;
    }

cleanup-Balanced : (p : ConnectionPool) → Balanced p → Balanced (cleanup_idle_hosts p)
unfolding cleanup_idle_hosts
cleanup-Balanced p v = record {
  global = v.global;
  active = v.active;
  each = v.each;
  staged = v.staged;
  held_known = v.held_known;
  waiting_known = v.waiting_known;
  hosts_known = in_use-Known p.config.max_per_host p.permits p.host_semaphores v.hosts_known;
}

pub step-Balanced : (p : ConnectionPool) (e : Event) → Balanced p → Balanced (step p e)
unfolding step
step-Balanced p admits v = admits-Balanced p v
step-Balanced p (looks_up host) v = elim (Bool-cases (ltb 0 p.admitted)) [
  | inl e ↦
      rw e
        (looked_up-Balanced host (lookup host p.host_semaphores) p refl (ltb→lt 0 p.admitted e) v)
  | inr e ↦ rw e v
]
step-Balanced p (takes i) v = take-Balanced p i (pull i p.waiting) refl v
step-Balanced p checks v = elim (Bool-cases (ltb p.cleanup_threshold (length p.host_semaphores))) [
  | inl e ↦ rw e (cleanup-Balanced p v)
  | inr e ↦ rw e v
]
step-Balanced p leaves v = leaves-Balanced p v
step-Balanced p (abandons i) v = stop-Balanced p i (pull i p.waiting) refl v
step-Balanced p (goes_on i) v = go_on-Balanced p i (get_elem? p.stages i) refl v
step-Balanced p cleans v = cleanup-Balanced p v

run_kept : (p : ConnectionPool) (es : List Event) → Balanced p → Balanced (run p es)
unfolding run
run_kept p [] v = v
run_kept p (e ∷ es) v = run_kept (step p e) es (step-Balanced p e v)

pub new-Balanced : (config : PoolConfig) → Balanced (new config)
unfolding new
new-Balanced config = record {
  global = omega arith;
  active = refl;
  each = λ s h. absurd (omega arith);
  staged = refl;
  held_known = tt;
  waiting_known = tt;
  hosts_known = tt;
}

-- After any interleaving of the steps of any tasks on a new pool, the free global permits, the tasks
-- inside acquire and the tasks with a host's permit that have not given their global one back add up to
-- the configured global limit; the counter is the number of connections that were counted and not yet
-- taken off it; and of each semaphore the free permits and those of the tasks add up to the configured
-- limit per host.
pub run-Balanced :
    (config : PoolConfig) (es : List Event)
    → Balanced (run (new config) es) × ((run (new config) es).config ≡ config)
unfolding new
run-Balanced config es =
    (run_kept (new config) es (unfold new in new-Balanced config), run-config (new config) es)
