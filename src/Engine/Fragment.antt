-- ===== src/Engine/Fragment.antt =====
-- crates/tachyon-engine/src/fragment.rs: the life of one fragment, and how long to wait before a
-- retry. A method returns the record it leaves and its result; a `Duration` is in nanoseconds, that
-- of a backoff in seconds.
mod Attempts
pub mod Backoff
use ai_model_downloader.Base.{
  ℕ, zero, suc, ◌+◌, ◌-◌, ◌*◌, ◌/◌, ◌%◌, ◌^◌, Bool, true, false, Option, none, some, leb, ltb, ◌==◌,
  if◌then◌else◌, u32, u64, min, max,
}
use ai_model_downloader.Core.Error.{DownloadError, DownloadResult, ok, err}
use ai_model_downloader.Core.FragmentInfo.{FragmentInfo}

pub data FragmentState : Type 0 where
  pending downloading verifying writing done failed : FragmentState

pub record FragmentRecord : Type 0 where
  pub info : FragmentInfo
  pub state : FragmentState
  pub retry_count : ℕ
  pub max_retries : ℕ
  pub last_duration : Option ℕ

unfoldable pub new : FragmentInfo → ℕ → FragmentRecord
new info max_retries = record {
  info = info;
  state = FragmentState.pending;
  retry_count = 0;
  max_retries = max_retries;
  last_duration = none;
}

-- A method that answers `DownloadResult<()>`.
abbrev pub Answer : Type 0 → Type 0
Answer A = FragmentRecord × DownloadResult A

abbrev accept : FragmentRecord → Answer (Unit {0})
accept r = (r, ok tt)

abbrev refuse : {A : Type 0} → FragmentRecord → Answer A
refuse r = (r, err DownloadError.fragment)

-- The guards compare the state, the last clause is the early return.
abbrev start_in : FragmentState → FragmentRecord → Answer (Unit {0})
start_in FragmentState.pending r = accept (record r { state = FragmentState.downloading })
start_in _ r = refuse r

unfoldable pub start_download : FragmentRecord → Answer (Unit {0})
start_download r = start_in r.state r

abbrev received : FragmentRecord → ℕ → ℕ → FragmentState → FragmentRecord
received r downloaded duration next = record r {
  info = record (r.info) { downloaded = downloaded };
  last_duration = some duration;
  state = next;
}

abbrev complete_in : FragmentState → FragmentRecord → ℕ → ℕ → FragmentState → Answer (Unit {0})
complete_in FragmentState.downloading r downloaded duration next =
    accept (received r downloaded duration next)
complete_in _ r downloaded duration next = refuse r

unfoldable pub complete_download : FragmentRecord → ℕ → ℕ → Answer (Unit {0})
complete_download r downloaded duration =
    complete_in r.state r downloaded duration FragmentState.verifying

unfoldable pub complete_download_fast : FragmentRecord → ℕ → ℕ → Answer (Unit {0})
complete_download_fast r downloaded duration =
    complete_in r.state r downloaded duration FragmentState.done

abbrev verify_in : FragmentState → FragmentRecord → Answer (Unit {0})
verify_in FragmentState.verifying r = accept (record r { state = FragmentState.writing })
verify_in _ r = refuse r

unfoldable pub verify_ok : FragmentRecord → Answer (Unit {0})
verify_ok r = verify_in r.state r

abbrev write_in : FragmentState → FragmentRecord → Answer (Unit {0})
write_in FragmentState.writing r = accept (record r { state = FragmentState.done })
write_in _ r = refuse r

unfoldable pub write_done : FragmentRecord → Answer (Unit {0})
write_done r = write_in r.state r

abbrev count_failure : FragmentRecord → Answer Bool
count_failure r =
    let counted = record r { retry_count = u32 (r.retry_count + 1) } in
    if leb counted.retry_count counted.max_retries
    then (record counted { state = FragmentState.pending }, ok true)
    else (record counted { state = FragmentState.failed }, ok false)

abbrev fail_in : FragmentState → FragmentRecord → Answer Bool
fail_in FragmentState.downloading r = count_failure r
fail_in FragmentState.verifying r = count_failure r
fail_in FragmentState.writing r = count_failure r
fail_in _ r = refuse r

unfoldable pub mark_failed : FragmentRecord → Answer Bool
mark_failed r = fail_in r.state r

unfoldable pub force_fail : FragmentRecord → FragmentRecord
force_fail r = record r { state = FragmentState.failed }

-- `trailing_zeros` of a `u64`.
trailing_zeros_from : ℕ → ℕ → ℕ
trailing_zeros_from zero n = 0
trailing_zeros_from (suc bits) n =
    let rest = trailing_zeros_from bits (n / 2) in if n % 2 == 0 then suc rest else 0

unfoldable pub trailing_zeros : ℕ → ℕ
unfolding trailing_zeros_from
trailing_zeros n = trailing_zeros_from 64 n

-- The draw that both retry loops make from a seed: the top bits of a multiplicative hash.
unfoldable pub jitter : ℕ → ℕ → ℕ
unfolding trailing_zeros
jitter base_secs seed = u64 (seed * 0x517cc1b727220a95) / 2 ^ (64 - trailing_zeros base_secs)

abbrev jittered : Option ℕ → ℕ → ℕ
jittered none base_secs = base_secs
jittered (some seed) base_secs =
    if ltb 1 base_secs then base_secs - jitter base_secs seed else base_secs

unfoldable pub backoff_duration : FragmentRecord → Option ℕ → ℕ
backoff_duration r jitter_seed =
    let base_secs = 2 ^ min r.retry_count 10 in max (jittered jitter_seed base_secs) 1
