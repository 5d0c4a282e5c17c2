-- ===== src/Engine/Run/Examples.antt =====
-- run and verify of downloader.rs for a file of one fragment.
use ai_model_downloader.Base.{nat_eq, string_eq, ◌≡◌, refl, true, false, none, some, [], ◌∷◌}
use ai_model_downloader.Core.Error.{DownloadError, DownloadResult, ok}
use ai_model_downloader.Core.FragmentInfo.{FragmentInfo}
use ai_model_downloader.Core.FragmentInfo as Info
use Prim.Native.String.{String}
use ai_model_downloader.Engine.Async.{returns, throws}
use ai_model_downloader.Core.State.{DownloadState}
use ai_model_downloader.Engine.Fragment.{new}
use ai_model_downloader.Engine.Plan.{plan_fragments, cut_by, effective_size, cut}
use ai_model_downloader.Engine.Join.{plan_records, resume}
use ai_model_downloader.Engine.Run.{
  Task, Meets, finished, run, transfer_file, execute, plan, verify,
}
use ai_model_downloader.Engine.Run.Terminal.{Ends, Verified, run-Ends, verify-Verified}
use ai_model_downloader.Engine.Run.Unverified.{run_unverified}

abbrev new_task : Task
new_task = record { state = DownloadState.pending; metadata = none; stored = false; fragments = [] }

abbrev same_digest : FragmentInfo → DownloadResult String
same_digest f = ok "af13"

abbrev going_well : Meets
going_well = record {
  probed = finished (ok (record { file_size = some 100; supports_range = true }));
  opened = ok tt;
  cancelled = false;
  scheduler = record {
    min_fragment_size = 10;
    max_fragment_size = 1000;
    default_target_fragments = 16;
    high_bandwidth_threshold = 1000000;
    medium_bandwidth_threshold = 1000;
  };
  bandwidth_bps = 0;
  suggested_frag_size = some 60;
  max_retries = 3;
  completed_fragments = [];
  prepared = finished (ok tt);
  transfer = (DownloadState.completed, returns tt);
  verify_checksum = true;
  digest = same_digest;
  verify_stopped = false;
}

run-Ends_example : Ends (run going_well new_task)
run-Ends_example = run-Ends going_well new_task

well_transferred : (transfer_file going_well new_task).1 ≡ returns tt
unfolding transfer_file execute plan plan_fragments cut_by effective_size cut Info.new plan_records
    resume
well_transferred = refl

run_unverified_example :
    ((run going_well new_task).1 ≡ throws DownloadError.no_expected_checksum)
    × ((run going_well new_task).0.state ≡ DownloadState.failed)
run_unverified_example = run_unverified going_well new_task refl refl well_transferred

-- One fragment has an expected digest, one has none.
abbrev hashed_task : Task
hashed_task = record {
  state = DownloadState.completed;
  metadata = some (record { file_size = some 100; supports_range = true });
  stored = true;
  fragments =
      new
        (record { index = 0; start = 0; end = 59; size = 60; downloaded = 60; hash = some "af13" })
        3
      ∷ new (record { index = 1; start = 60; end = 99; size = 40; downloaded = 40; hash = none }) 3
      ∷ [];
}

well_verified : (verify true same_digest hashed_task).1 ≡ returns tt
unfolding verify new
well_verified = refl

verify-Verified_example : Verified same_digest hashed_task.fragments
verify-Verified_example = verify-Verified same_digest hashed_task well_verified
