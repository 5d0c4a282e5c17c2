-- ===== src/Engine/Join/Examples.antt =====
-- downloader.rs: three fragments, one of which an earlier run has completed.
use ai_model_downloader.Base.{
  nat_eq, string_eq, ℕ, zero, suc, ◌+◌, ◌*◌, ◌≡◌, refl, ◌≢◌, ◌⊎◌, inl, inr, none, some, List, [],
  ◌∷◌, ltb, if◌then◌else◌,
}
use ai_model_downloader.Core.Error.{ok}
use mathlib.Core.List.{Memᴰ}
use ai_model_downloader.Core.State.{DownloadState}
use ai_model_downloader.Core.FragmentInfo.{FragmentInfo}
use ai_model_downloader.Engine.Fragment.{
  FragmentState, FragmentRecord, start_download, complete_download_fast,
}
use ai_model_downloader.Engine.Join.{join, Outcome, delivers, Job, plan_records, execute_fragmented}
use ai_model_downloader.Engine.Join.Places.{state_at}
use ai_model_downloader.Engine.Join.Resumed.{elem, plan_records-state}
use ai_model_downloader.Engine.Join.Reports.{Indexed}
use ai_model_downloader.Engine.Join.Done.{execute_fragmented_done}

abbrev info_at : ℕ → FragmentInfo
info_at i = record {
  index = i;
  start = 10 * i;
  end = 10 * i + 9;
  size = 10;
  downloaded = 0;
  hash = none;
}

abbrev three : List FragmentInfo
three = info_at 0 ∷ info_at 1 ∷ info_at 2 ∷ []

plan_records-state_example :
    ((plan_records 3 (1 ∷ 7 ∷ 1 ∷ []) three).1 ≡ ok tt)
    × (state_at (plan_records 3 (1 ∷ 7 ∷ 1 ∷ []) three).0 1 ≡ (
        if ltb 1 3
        then some (if elem 1 (1 ∷ 7 ∷ 1 ∷ []) then FragmentState.done else FragmentState.pending)
        else none))
plan_records-state_example = plan_records-state 3 (1 ∷ 7 ∷ 1 ∷ []) three 1

abbrev record_at : ℕ → FragmentState → FragmentRecord
record_at i s = record {
  info = info_at i;
  state = s;
  retry_count = 0;
  max_retries = 3;
  last_duration = none;
}

abbrev begun_before : Job
begun_before = record {
  fragments =
      record_at 0 FragmentState.pending
      ∷ record_at 1 FragmentState.done
      ∷ record_at 2 FragmentState.pending
      ∷ [];
  state = DownloadState.downloading;
  bytes = 0;
}

abbrev arrived : ℕ → Outcome
arrived i = delivers 10 (i + 1)

-- The second task ends before the first.
abbrev swapped : List ℕ → List ℕ
swapped [] = []
swapped (i ∷ []) = i ∷ []
swapped (i ∷ k ∷ is) = k ∷ i ∷ is

joins : (is : List ℕ) (k : ℕ) → Memᴰ k is → Memᴰ k (swapped is)
joins [] k m = m
joins (i ∷ []) k m = m
joins (i ∷ j ∷ is) k (Memᴰ.head x) = Memᴰ.tail (Memᴰ.head x)
joins (i ∷ j ∷ is) k (Memᴰ.tail (Memᴰ.head x)) = Memᴰ.head x
joins (i ∷ j ∷ is) k (Memᴰ.tail (Memᴰ.tail x)) = Memᴰ.tail (Memᴰ.tail x)

numbered : Indexed 0 begun_before.fragments
numbered = (refl, (refl, (refl, tt)))

ready :
    (k : ℕ)
    → state_at begun_before.fragments k ≢ none
    → (state_at begun_before.fragments k ≡ some FragmentState.pending)
      ⊎ (state_at begun_before.fragments k ≡ some FragmentState.done)
ready zero n = inl refl
ready (suc zero) n = inr refl
ready (suc (suc zero)) n = inl refl
ready (suc (suc (suc k))) n = absurd (n refl)

returns_ok : (execute_fragmented arrived swapped (ok tt) begun_before).1 ≡ ok tt
unfolding execute_fragmented start_download complete_download_fast join
returns_ok = refl

execute_fragmented_done_example :
    let t = (execute_fragmented arrived swapped (ok tt) begun_before).0 in
    (t.state ≡ DownloadState.completed)
    × ((k : ℕ)
        → state_at begun_before.fragments k ≢ none
        → state_at t.fragments k ≡ some FragmentState.done)
execute_fragmented_done_example =
    execute_fragmented_done arrived swapped (ok tt) begun_before joins numbered ready returns_ok
