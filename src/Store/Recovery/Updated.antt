-- ===== src/Store/Recovery/Updated.antt =====
-- recovery.rs: a snapshot after the progress of its fragments.
use Prim.Native.String.{String}
use ai_model_downloader.Base.{
  lookup, insert, nat_eq, string_eq, lookup-insert, ℕ, ◌≡◌, refl, ap, ◌∙◌, ◌≢◌, Option, none, some,
  arith,
}
use ai_model_downloader.Core.State.{DownloadState}
use ai_model_downloader.Store.Recovery.{
  TaskSnapshot, status_text, parse_legacy_status, to_record, or_unknown, saved, KvStore,
  with_fragment, from_record, read_option, save_task_snapshot, load_task_snapshot, save_task,
  record_option, load_task, progressed, update_fragment_progress,
}

parse-status_text : (s : DownloadState) → parse_legacy_status (status_text s) ≡ s
unfolding parse_legacy_status status_text
parse-status_text DownloadState.pending = refl
parse-status_text DownloadState.connecting = refl
parse-status_text DownloadState.downloading = refl
parse-status_text DownloadState.paused = refl
parse-status_text DownloadState.resuming = refl
parse-status_text DownloadState.verifying = refl
parse-status_text DownloadState.completed = refl
parse-status_text DownloadState.failed = refl
parse-status_text DownloadState.cancelled = refl

-- The snapshot that an update stores.
abbrev pub updated : (String → Option String) → ℕ → ℕ → TaskSnapshot → TaskSnapshot
updated file_name_of i bytes s = record {
  id = s.id;
  url = s.url;
  save_path = s.save_path;
  file_name = or_unknown (file_name_of s.save_path);
  file_size = s.file_size;
  downloaded = bytes;
  completed_fragments = with_fragment i s.completed_fragments;
  total_fragments = s.total_fragments;
  fragment_size = 0;
  status = s.status;
  etag = none;
  last_modified = none;
  content_length = s.file_size;
  created_at = "";
  updated_at = "";
  fail_reason = none;
  retry_count = 0;
}

module _ (file_name_of : String → Option String) (store : KvStore) (s : TaskSnapshot) (i bytes : ℕ)
    (at : lookup s.id store ≡ some (saved s)) where
  stored :
      update_fragment_progress file_name_of s.id i bytes store
      ≡ insert s.id (saved (updated file_name_of i bytes s)) store
  unfolding update_fragment_progress load_task load_task_snapshot save_task save_task_snapshot
      from_record to_record
  stored =
      ap (λ o. progressed file_name_of i bytes (record_option (read_option file_name_of o)) store)
        at
      ∙ ap (λ d. insert s.id (saved (record (updated file_name_of i bytes s) { status = d })) store)
          (parse-status_text s.status)

  loaded_here :
      load_task_snapshot file_name_of s.id
        (update_fragment_progress file_name_of s.id i bytes store)
      ≡ some (updated file_name_of i bytes s)
  unfolding load_task_snapshot
  loaded_here =
      let found : lookup s.id (insert s.id (saved (updated file_name_of i bytes s)) store)
          ≡ some (saved (updated file_name_of i bytes s)) =
        ground (
          arith,
          lookup-insert s.id s.id (saved (updated file_name_of i bytes s)) store,
          string_eq.beq_iff s.id s.id,
        ) in
      ap (λ m. read_option file_name_of (lookup s.id m)) stored
      ∙ ap (read_option file_name_of) found

  loaded_there :
      (other : String)
      → s.id ≢ other
      → load_task_snapshot file_name_of other
          (update_fragment_progress file_name_of s.id i bytes store)
        ≡ load_task_snapshot file_name_of other store
  unfolding load_task_snapshot
  loaded_there other apart =
      let kept : lookup other (insert s.id (saved (updated file_name_of i bytes s)) store)
          ≡ lookup other store =
        ground (
          arith,
          lookup-insert s.id other (saved (updated file_name_of i bytes s)) store,
          string_eq.beq_iff s.id other,
        ) in
      ap (λ m. read_option file_name_of (lookup other m)) stored
      ∙ ap (read_option file_name_of) kept

-- The progress of a fragment of a saved task keeps its id, URL, path, size, fragment count and state,
-- sets the downloaded bytes and adds the fragment to the completed ones unless it is there. The size of
-- a fragment, the entity tag, the dates, the reason of a failure and the retries of the snapshot are
-- lost, its file name is read again from the path and its content length is the file's size. Other
-- tasks stay as they are.
pub update_fragment_progress_loses :
    (file_name_of : String → Option String) (store : KvStore) (s : TaskSnapshot) (i bytes : ℕ)
    (other : String)
    → lookup s.id store ≡ some (saved s)
    → s.id ≢ other
    → (load_task_snapshot file_name_of s.id
          (update_fragment_progress file_name_of s.id i bytes store)
        ≡ some (updated file_name_of i bytes s))
      × (load_task_snapshot file_name_of other
            (update_fragment_progress file_name_of s.id i bytes store)
          ≡ load_task_snapshot file_name_of other store)
update_fragment_progress_loses file_name_of store s i bytes other at apart = (
  loaded_here file_name_of store s i bytes at,
  loaded_there file_name_of store s i bytes at other apart,
)
