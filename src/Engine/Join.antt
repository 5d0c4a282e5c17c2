-- ===== src/Engine/Join.antt =====
-- crates/tachyon-engine/src/downloader.rs: what `plan` makes of the fragments that an earlier run has
-- completed, and execute_fragmented_download around its tasks: the fragments that are started, and what
-- the results of their tasks, which come in any order, do to the download.
pub mod Places
pub mod Hashless
mod Resumed
mod Reports
mod Done
mod Examples
use ai_model_downloader.Base.{
  lookup, insert, remove, Eq, nat_eq, string_eq, lookup-insert, lookup-remove, ℕ, zero, suc, ◌+◌,
  ◌-◌, ◌*◌, ◌/◌, ◌%◌, ◌^◌, ◌≤◌, ◌<◌, min, max, ◌≡◌, refl, sym, ap, ◌∙◌, subst, ◌≢◌, ◌↔◌, ◌⊎◌, inl,
  inr, Bool, true, false, not, ◌&&◌, ◌||◌, Option, none, some, List, [], ◌∷◌, ◌++◌, map, arith,
  dec_lt, ℕ_discrete, ltb, leb, ◌==◌, if◌then◌else◌, ltb→lt, lt→ltb, leb→le, le→leb, ==_iff, lt→leb,
  ne→==, Bool-cases, Option-cases, u8, u32, u64, u64_max, checked_add, length, get_elem?, set, take,
  drop, length-append, length-drop, length-set, All,
}
use ai_model_downloader.Core.Error.{DownloadError, DownloadResult, ok, err, panic, ◌>>=◌}
use ai_model_downloader.Core.State.{DownloadState}
use ai_model_downloader.Core.FragmentInfo.{FragmentInfo}
use ai_model_downloader.Engine.Fragment.{
  FragmentState, FragmentRecord, new, start_download, complete_download_fast, force_fail,
}

-- The fragment is marked as complete before it is started, and an error on the way ends the plan.
abbrev resumed_by :
    FragmentRecord × DownloadResult (Unit {0}) → FragmentRecord × DownloadResult (Unit {0})
resumed_by (r, ok u) = complete_download_fast r (r.info).size 0
resumed_by (r, err e) = (r, err e)
resumed_by (r, panic) = (r, panic)

-- Only a fragment that is still pending is resumed.
abbrev resume_in : FragmentState → FragmentRecord → FragmentRecord × DownloadResult (Unit {0})
resume_in FragmentState.pending r =
    resumed_by (start_download (record r { info = record (r.info) { downloaded = (r.info).size } }))
resume_in _ r = (r, ok tt)

abbrev resume_at :
    ℕ
    → Option FragmentRecord
    → List FragmentRecord
    → List FragmentRecord × DownloadResult (Unit {0})
resume_at i none fs = (fs, ok tt)
resume_at i (some r) fs = let (r', a) = resume_in r.state r in (set fs i r', a)

abbrev and_then :
    {A : Type 0}
    → A × DownloadResult (Unit {0})
    → (A → A × DownloadResult (Unit {0}))
    → A × DownloadResult (Unit {0})
and_then (a, ok u) k = k a
and_then (a, err e) k = (a, err e)
and_then (a, panic) k = (a, panic)

unfoldable pub resume :
    List ℕ → List FragmentRecord → List FragmentRecord × DownloadResult (Unit {0})
resume [] fs = (fs, ok tt)
resume (i ∷ is) fs = and_then (resume_at i (get_elem? fs i) fs) (resume is)

-- The records of a plan.
unfoldable pub plan_records :
    ℕ → List ℕ → List FragmentInfo → List FragmentRecord × DownloadResult (Unit {0})
unfolding resume
plan_records max_retries completed_fragments infos =
    resume completed_fragments (map (λ info. new info max_retries) infos)

abbrev pub is_pending : FragmentState → Bool
is_pending FragmentState.pending = true
is_pending _ = false

-- `fragment_specs`: the fragments to download.
unfoldable pub fragment_specs : List FragmentRecord → List ℕ
fragment_specs [] = []
fragment_specs (r ∷ rs) =
    let rest = fragment_specs rs in if is_pending r.state then (r.info).index ∷ rest else rest

abbrev start_at :
    ℕ
    → Option FragmentRecord
    → List FragmentRecord
    → List FragmentRecord × DownloadResult (Unit {0})
start_at i none fs = (fs, err DownloadError.config)
start_at i (some r) fs = let (r', a) = start_download r in (set fs i r', a)

-- The loop that spawns the tasks.
unfoldable pub start_all :
    List ℕ → List FragmentRecord → List FragmentRecord × DownloadResult (Unit {0})
start_all [] fs = (fs, ok tt)
start_all (i ∷ is) fs = and_then (start_at i (get_elem? fs i) fs) (start_all is)

-- What `join_next` brings: a task that panicked, or the result of the task of a fragment.
pub data Joined : Type 0 where
  panicked : Joined
  failed : ℕ → DownloadError → Joined
  finished : ℕ → ℕ → ℕ → Joined

pub record Job : Type 0 where
  pub fragments : List FragmentRecord
  pub state : DownloadState
  pub bytes : ℕ

abbrev fail_at : ℕ → Option FragmentRecord → List FragmentRecord → List FragmentRecord
fail_at i none fs = fs
fail_at i (some r) fs = set fs i (force_fail r)

abbrev add_bytes : ℕ → Job × DownloadResult (Unit {0}) → Job × DownloadResult (Unit {0})
add_bytes n (j, ok u) = (record j { bytes = u64 (j.bytes + n) }, ok u)
add_bytes n (j, err e) = (j, err e)
add_bytes n (j, panic) = (j, panic)

-- `self.fragments[index]` panics out of range.
abbrev finish_at : ℕ → ℕ → ℕ → Option FragmentRecord → Job → Job × DownloadResult (Unit {0})
finish_at i downloaded duration none j = (j, panic)
finish_at i downloaded duration (some r) j =
    let (r', a) = complete_download_fast r downloaded duration in
    add_bytes downloaded (record j { fragments = set j.fragments i r' }, a)

unfoldable pub join : Joined → Job → Job × DownloadResult (Unit {0})
join panicked j = (record j { state = DownloadState.failed }, err DownloadError.other)
join (failed i e) j = (
  record j {
    fragments = fail_at i (get_elem? j.fragments i) j.fragments;
    state = DownloadState.failed;
  },
  err e,
)
join (finished i downloaded duration) j =
    finish_at i downloaded duration (get_elem? j.fragments i) j

-- The `while let`; the results after an error are dropped with their tasks.
unfoldable pub join_all : List Joined → Job → Job × DownloadResult (Unit {0})
join_all [] j = (j, ok tt)
join_all (x ∷ xs) j = and_then (join x j) (join_all xs)

abbrev started :
    Job → List FragmentRecord × DownloadResult (Unit {0}) → Job × DownloadResult (Unit {0})
started j (fs, a) = (record j { fragments = fs }, a)

abbrev synced : DownloadResult (Unit {0}) → Job → Job × DownloadResult (Unit {0})
synced (ok u) j = (record j { state = DownloadState.completed }, ok u)
synced (err e) j = (j, err e)
synced panic j = (j, panic)

-- How the task of a fragment ends: its panic, its error, or its bytes and duration.
pub data Outcome : Type 0 where
  crashes : Outcome
  fails : DownloadError → Outcome
  delivers : ℕ → ℕ → Outcome

-- A task answers with the index of its fragment.
abbrev pub result_of : ℕ → Outcome → Joined
result_of i crashes = panicked
result_of i (fails e) = failed i e
result_of i (delivers n duration) = finished i n duration

abbrev pub results_of : (ℕ → Outcome) → List ℕ → List Joined
results_of outcome [] = []
results_of outcome (i ∷ is) = result_of i (outcome i) ∷ results_of outcome is

-- `sync` is how the storage answers at the end. The configuration allows a task at least, and the
-- storage and the host are there.
unfoldable pub start_and_join :
    List Joined → DownloadResult (Unit {0}) → Job → Job × DownloadResult (Unit {0})
unfolding join_all start_all fragment_specs
start_and_join results sync j =
    and_then
      (and_then (started j (start_all (fragment_specs j.fragments) j.fragments)) (join_all results))
      (synced sync)

-- The tasks that are spawned end in an order of their own, in which `join_next` brings their results.
unfoldable pub execute_fragmented :
    (ℕ → Outcome)
    → (List ℕ → List ℕ)
    → DownloadResult (Unit {0})
    → Job
    → Job × DownloadResult (Unit {0})
unfolding start_and_join fragment_specs
execute_fragmented outcome arrange sync j =
    start_and_join (results_of outcome (arrange (fragment_specs j.fragments))) sync j
