-- ===== src/Engine/Fragment/Attempts.antt =====
-- fragment.rs: how often a FragmentRecord may be tried.
use ai_model_downloader.Base.{ℕ, suc, ◌+◌, ◌-◌, ◌≢◌, ◌≤◌, ◌<◌, ◌≡◌, ◌⊎◌, inr, List, [], ◌∷◌, arith}
use ai_model_downloader.Core.Error.{DownloadResult, ok}
use ai_model_downloader.Core.FragmentInfo.{FragmentInfo}
use ai_model_downloader.Engine.Fragment.{
  FragmentState, FragmentRecord, new, start_download, complete_download, complete_download_fast,
  verify_ok, write_done, mark_failed, force_fail,
}

-- The calls of a record's methods.
pub data Call : Type 0 where
  starts verifies writes marks forces : Call
  completes completes_fast : ℕ → ℕ → Call

unfoldable pub step : FragmentRecord → Call → FragmentRecord
step r Call.starts = (start_download r).0
step r (Call.completes downloaded duration) = (complete_download r downloaded duration).0
step r (Call.completes_fast downloaded duration) = (complete_download_fast r downloaded duration).0
step r Call.verifies = (verify_ok r).0
step r Call.writes = (write_done r).0
step r Call.marks = (mark_failed r).0
step r Call.forces = force_fail r

unfoldable pub run : FragmentRecord → List Call → FragmentRecord
run r [] = r
run r (c ∷ cs) = run (step r c) cs

abbrev accepted : Call → DownloadResult (Unit {0}) → ℕ
accepted Call.starts (ok _) = 1
accepted _ _ = 0

-- The downloads that a sequence of calls really begins.
unfoldable pub attempts : FragmentRecord → List Call → ℕ
attempts r [] = 0
attempts r (c ∷ cs) = accepted c (start_download r).1 + attempts (step r c) cs

-- The attempts that a record can still make.
abbrev budget_in : FragmentState → ℕ → ℕ
budget_in FragmentState.pending retries_left = suc retries_left
budget_in FragmentState.done retries_left = 0
budget_in FragmentState.failed retries_left = 0
budget_in _ retries_left = retries_left

abbrev budget : FragmentRecord → ℕ
budget r = budget_in r.state (r.max_retries - r.retry_count)

abbrev pub Counts : FragmentRecord → Type 0
Counts r = (r.state ≡ FragmentState.failed) ⊎ (r.retry_count ≤ r.max_retries)

step-budget :
    (r : FragmentRecord) (c : Call)
    → r.max_retries < 4294967295
    → Counts r
    → Counts (step r c)
      × ((step r c).max_retries ≡ r.max_retries)
      × (accepted c (start_download r).1 + budget (step r c) ≤ budget r)
unfolding step start_download complete_download complete_download_fast verify_ok write_done
    mark_failed force_fail
step-budget r c m h = ground arith

attempts-budget :
    (r : FragmentRecord) (cs : List Call)
    → r.max_retries < 4294967295
    → Counts r
    → attempts r cs ≤ budget r
unfolding attempts
attempts-budget r [] m h = omega arith
attempts-budget r (c ∷ cs) m h =
    let (kept, same, spent) = step-budget r c m h in
    omega (arith, attempts-budget (step r c) cs (rw same m) kept)

-- Whatever is called on a new record, in whatever order, at most `max_retries + 1` downloads of the
-- fragment begin (for a limit below the largest `u32`).
pub attempts-le-max_retries :
    (info : FragmentInfo) (max_retries : ℕ) (cs : List Call)
    → max_retries < 4294967295
    → attempts (new info max_retries) cs ≤ max_retries + 1
unfolding new
attempts-le-max_retries info max_retries cs m =
    omega (arith, attempts-budget (new info max_retries) cs m (inr (omega arith)))

-- A fragment that is done stays done, with its byte count, under every call but `force_fail`: the
-- record is as it was.
pub step_done :
    (r : FragmentRecord) (c : Call) → c ≢ Call.forces → r.state ≡ FragmentState.done → step r c ≡ r
unfolding step start_download complete_download complete_download_fast verify_ok write_done
    mark_failed force_fail
step_done r c f h = ground arith
