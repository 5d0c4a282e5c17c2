-- ===== src/Store/Recovery/Examples.antt =====
-- A saved task of recovery.rs.
use Prim.Native.String.{String}
use ai_model_downloader.Base.{
  lookup, nat_eq, string_eq, ◌≡◌, refl, ◌≢◌, Option, none, some, [], ◌∷◌, map,
}
use text.Mathlib.TextEquality.{eq_iff}
use ai_model_downloader.Core.State.{DownloadState}
use ai_model_downloader.Store.Recovery.{
  TaskSnapshot, saved, KvStore, update_fragment_progress, load_task_snapshot, recover_pending_tasks,
  recover_pending_snapshots, to_record, status_text, load_task,
}
use ai_model_downloader.Store.Recovery.Pending.{recover_pending_tasks-recover_pending_snapshots}
use ai_model_downloader.Store.Recovery.Updated.{updated, update_fragment_progress_loses}

abbrev snapshot : TaskSnapshot
snapshot = record {
  id = "t1";
  url = "https://example.com/m.bin";
  save_path = "/d/m.bin";
  file_name = "m.bin";
  file_size = some 3000;
  downloaded = 1000;
  completed_fragments = 0 ∷ [];
  total_fragments = 3;
  fragment_size = 1000;
  status = DownloadState.downloading;
  etag = some "v1";
  last_modified = none;
  content_length = some 3000;
  created_at = "2026-01-01";
  updated_at = "2026-01-01";
  fail_reason = none;
  retry_count = 1;
}

abbrev store : KvStore
store = ("t1", saved snapshot) ∷ ("t2", saved (record snapshot { id = "t2" })) ∷ []

abbrev last_part : String → Option String
last_part path = some "m.bin"

is_saved : lookup "t1" store ≡ some (saved snapshot)
unfolding lookup
is_saved = refl

not_other : snapshot.id ≢ "t2"
not_other h = let e = (eq_iff "t1" "t2").1 h in cc e

update_fragment_progress_loses_example :
    (load_task_snapshot last_part "t1" (update_fragment_progress last_part "t1" 2 2000 store)
      ≡ some (updated last_part 2 2000 snapshot))
    × (load_task_snapshot last_part "t2" (update_fragment_progress last_part "t1" 2 2000 store)
        ≡ load_task_snapshot last_part "t2" store)
update_fragment_progress_loses_example =
    update_fragment_progress_loses last_part store snapshot 2 2000 "t2" is_saved not_other

recover_pending_tasks-recover_pending_snapshots_example :
    recover_pending_tasks last_part store
    ≡ map to_record (recover_pending_snapshots last_part store)
recover_pending_tasks-recover_pending_snapshots_example =
    recover_pending_tasks-recover_pending_snapshots last_part store

recovered :
    recover_pending_tasks last_part store
    ≡ to_record snapshot ∷ to_record (record snapshot { id = "t2" }) ∷ []
unfolding recover_pending_tasks load_task load_task_snapshot lookup to_record status_text
recovered = refl
