-- ===== src/Engine/Run.antt =====
-- crates/tachyon-engine/src/downloader.rs, run, run_inner, execute, verify and apply_terminal_error: the
-- steps of a task from probe to verification, and the state it ends in. How the server, the storage and
-- the transfer answer is given; a step that races the control channel may lose to it. The digest of a
-- fragment, BLAKE3 over the bytes that the storage returns for its range, is an argument with how its reads
-- end. The plan is that of Engine/Plan, with the bandwidth and the suggested size of the scheduler as
-- arguments. The fragments keep their size and digest in the transfer.
mod Terminal
mod Unverified
mod Examples
use Prim.Native.String.{String}
use ai_model_downloader.Base.{
  lookup, insert, remove, Eq, nat_eq, string_eq, lookup-insert, lookup-remove, ℕ, zero, suc, ◌+◌,
  ◌-◌, ◌*◌, ◌/◌, ◌%◌, ◌^◌, ◌≤◌, ◌<◌, min, max, ◌≡◌, refl, sym, ap, ◌∙◌, subst, ◌≢◌, ◌↔◌, ◌⊎◌, inl,
  inr, Bool, true, false, not, ◌&&◌, ◌||◌, Option, none, some, List, [], ◌∷◌, ◌++◌, map, arith,
  dec_lt, ℕ_discrete, ltb, leb, ◌==◌, if◌then◌else◌, ltb→lt, lt→ltb, leb→le, le→leb, ==_iff, lt→leb,
  ne→==, Bool-cases, Option-cases, u8, u32, u64, u64_max, checked_add, length, get_elem?, set, take,
  drop, length-append, length-drop, length-set, All,
}
use ai_model_downloader.Core.Error.{DownloadError, DownloadResult, ok, err, panic, ◌>>=◌}
use ai_model_downloader.Engine.Async.{Async, returns, throws, panics, waits, exhausted, of_result}
use ai_model_downloader.Core.State.{DownloadState, try_transition}
use ai_model_downloader.Core.FragmentInfo.{FragmentInfo}
use ai_model_downloader.Engine.Fragment.{FragmentRecord}
use ai_model_downloader.Engine.Plan.{SchedulerConfig, plan_fragments}
use ai_model_downloader.Engine.Join.{plan_records}

-- What planning and execution read of `FileMetadata`.
pub record Metadata : Type 0 where
  pub file_size : Option ℕ
  pub supports_range : Bool

-- A `select!` of a step and `wait_for_cancel`, which also ends when the channel is closed. Without a
-- channel a step is never `stopped`.
pub data Raced {ℓ} (A : Type ℓ) : Type ℓ where
  finished : A → Raced A
  stopped : Raced A

pub record Task : Type 0 where
  pub state : DownloadState
  pub metadata : Option Metadata
  pub stored : Bool
  pub fragments : List FragmentRecord

-- What the steps of a run meet. `transfer` is the state that the full or the fragmented download leaves,
-- and its answer.
pub record Meets : Type 0 where
  pub probed : Raced (DownloadResult Metadata)
  pub opened : DownloadResult (Unit {0})
  pub cancelled : Bool
  pub scheduler : SchedulerConfig
  pub bandwidth_bps : ℕ
  pub suggested_frag_size : Option ℕ
  pub max_retries : ℕ
  pub completed_fragments : List ℕ
  pub prepared : Raced (DownloadResult (Unit {0}))
  pub transfer : DownloadState × Async (Unit {0})
  pub verify_checksum : Bool
  pub digest : FragmentInfo → DownloadResult String
  pub verify_stopped : Bool

abbrev Step : Type 0
Step = Task → Task × Async (Unit {0})

infixl 5 ◌then◌
abbrev ◌then◌ : Task × Async (Unit {0}) → Step → Task × Async (Unit {0})
(t, returns u) then next = next t
(t, throws e) then next = (t, throws e)
(t, panics) then next = (t, panics)
(t, waits) then next = (t, waits)
(t, exhausted) then next = (t, exhausted)

abbrev stop : Step
stop t = (record t { state = DownloadState.cancelled }, throws DownloadError.cancelled)

abbrev probed_as : DownloadResult Metadata → Step
probed_as (ok md) t = (record t { metadata = some md }, returns tt)
probed_as (err e) t = (t, throws e)
probed_as panic t = (t, panics)

-- `probe`, which keeps metadata that are there already.
abbrev probe : Raced (DownloadResult Metadata) → Option Metadata → Step
probe stopped _ t = stop t
probe (finished r) (some md) t = (t, returns tt)
probe (finished r) none t = probed_as r t

abbrev opened_as : DownloadResult (Unit {0}) → Step
opened_as (ok u) t = (record t { stored = true }, returns tt)
opened_as (err e) t = (t, throws e)
opened_as panic t = (t, panics)

abbrev needs_metadata : Option Metadata → Step → Step
needs_metadata none next t = (t, throws DownloadError.config)
needs_metadata (some md) next t = next t

abbrev init_storage : DownloadResult (Unit {0}) → Step
init_storage r t =
    let opening = needs_metadata t.metadata (opened_as r) t in
    if t.stored then (t, returns tt) else opening

abbrev recorded : List FragmentRecord × DownloadResult (Unit {0}) → Step
recorded (fs, a) t = (record t { fragments = fs }, of_result a)

abbrev planned_as : ℕ → List ℕ → Option (DownloadResult (List FragmentInfo)) → Step
planned_as max_retries completed none t = (t, exhausted)
planned_as max_retries completed (some (ok infos)) t =
    recorded (plan_records max_retries completed infos) t
planned_as max_retries completed (some (err e)) t = (t, throws e)
planned_as max_retries completed (some panic) t = (t, panics)

abbrev size_or_zero : Option ℕ → ℕ
size_or_zero none = 0
size_or_zero (some n) = n

abbrev plan_of : Meets → Option Metadata → Step
plan_of m none t = (t, throws DownloadError.config)
plan_of m (some md) t =
    planned_as m.max_retries m.completed_fragments
      (plan_fragments m.scheduler m.bandwidth_bps (size_or_zero md.file_size) md.supports_range
        m.suggested_frag_size)
      t

unfoldable pub plan : Meets → Step
plan m t = plan_of m t.metadata t

abbrev check_cancelled : Bool → Step
check_cancelled c t = if c then (t, throws DownloadError.cancelled) else (t, returns tt)

-- A file of unknown size or of size 0 is not allocated.
abbrev allocate_size : Option ℕ → DownloadResult (Unit {0}) → Step
allocate_size none r t = (t, returns tt)
allocate_size (some n) r t = if ltb 0 n then (t, of_result r) else (t, returns tt)

abbrev allocate : Option Metadata → Bool → DownloadResult (Unit {0}) → Step
allocate none stored r t = (t, throws DownloadError.config)
allocate (some md) false r t = (t, throws DownloadError.config)
allocate (some md) true r t = allocate_size md.file_size r t

abbrev prepare_storage : Raced (DownloadResult (Unit {0})) → Step
prepare_storage stopped t = stop t
prepare_storage (finished r) t = allocate t.metadata t.stored r t

abbrev transferred : DownloadState × Async (Unit {0}) → Step
transferred (s, r) t = (record t { state = s }, r)

-- An empty file needs no transfer.
abbrev execute_size : Option ℕ → DownloadState × Async (Unit {0}) → Step
execute_size none x t = transferred x t
execute_size (some n) x t =
    if n == 0 then (record t { state = DownloadState.completed }, returns tt) else transferred x t

abbrev execute_of : Option Metadata → DownloadState × Async (Unit {0}) → Step
execute_of none x t = (t, throws DownloadError.config)
execute_of (some md) x t = execute_size md.file_size x t

unfoldable pub execute : DownloadState × Async (Unit {0}) → Step
execute x t = execute_of t.metadata x (record t { state = DownloadState.downloading })

abbrev failed_with : DownloadError → Step
failed_with e t = (record t { state = DownloadState.failed }, throws e)

-- One fragment; `found` and `next` are what follows with and without an expected digest so far.
abbrev verify_one : Option String → DownloadResult String → Step → Step → Step
verify_one none c next found t = next t
verify_one (some h) (err e) next found t = (t, throws e)
verify_one (some h) panic next found t = (t, panics)
verify_one (some h) (ok c) next found t =
    let rest = found t in
    if string_eq.beq c h then rest else failed_with DownloadError.checksum_mismatch t

-- The fragments with an expected digest, one after the other.
unfoldable pub verify_each :
    (FragmentInfo → DownloadResult String) → List FragmentRecord → Bool → Step
verify_each digest [] has_expected_hash t =
    if has_expected_hash then (t, returns tt) else failed_with DownloadError.no_expected_checksum t
verify_each digest (r ∷ rs) has_expected_hash t =
    verify_one (r.info).hash (digest r.info) (verify_each digest rs has_expected_hash)
      (verify_each digest rs true) t

abbrev needs_storage : Bool → Step → Step
needs_storage stored next t = if stored then next t else (t, throws DownloadError.config)

unfoldable pub verify : Bool → (FragmentInfo → DownloadResult String) → Step
unfolding verify_each
verify verify_checksum digest t =
    if verify_checksum
    then needs_storage t.stored (verify_each digest t.fragments false)
        (record t { state = DownloadState.verifying })
    else (t, returns tt)

abbrev verify_raced : Bool → Bool → (FragmentInfo → DownloadResult String) → Step
verify_raced lost verify_checksum digest t =
    if lost then stop t else verify verify_checksum digest t

abbrev complete : Step
complete t = (record t { state = DownloadState.completed }, returns tt)

-- The steps up to the transfer.
unfoldable pub transfer_file : Meets → Step
unfolding execute plan
transfer_file m t =
    probe m.probed t.metadata t
    then init_storage m.opened
    then check_cancelled m.cancelled
    then plan m
    then prepare_storage m.prepared
    then execute m.transfer

unfoldable pub run_inner : Meets → Step
unfolding transfer_file verify
run_inner m t =
    transfer_file m t then verify_raced m.verify_stopped m.verify_checksum m.digest then complete

abbrev is_cancelled_error : DownloadError → Bool
is_cancelled_error DownloadError.cancelled = true
is_cancelled_error _ = false

abbrev is_cancelled : DownloadState → Bool
is_cancelled DownloadState.cancelled = true
is_cancelled _ = false

abbrev forced : DownloadState → DownloadResult DownloadState → DownloadState
forced target (ok s) = s
forced target (err e) = target
forced target panic = target

unfoldable pub apply_terminal_error : DownloadError → DownloadState → DownloadState
apply_terminal_error e s =
    let target =
      if is_cancelled_error e || is_cancelled s
      then DownloadState.cancelled
      else DownloadState.failed in
    forced target (try_transition s target)

abbrev ended : Task × Async (Unit {0}) → Task × Async (Unit {0})
ended (t, returns u) = (t, returns u)
ended (t, throws e) = (record t { state = apply_terminal_error e t.state }, throws e)
ended (t, panics) = (t, panics)
ended (t, waits) = (t, waits)
ended (t, exhausted) = (t, exhausted)

unfoldable pub run : Meets → Task → Task × Async (Unit {0})
unfolding run_inner apply_terminal_error
run m t = ended (run_inner m t)
