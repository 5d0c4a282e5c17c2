-- ===== src/Store/Recovery/Pending.antt =====
-- recovery.rs: the tasks to continue after a start.
use Prim.Native.String.{String}
use ai_model_downloader.Base.{
  string_eq, ◌≡◌, refl, ap, ◌∙◌, Bool, true, false, ◌||◌, Option, none, some, List, [], ◌∷◌, map,
  if◌then◌else◌,
}
use ai_model_downloader.Core.State.{DownloadState}
use ai_model_downloader.Store.Recovery.{
  TaskSnapshot, status_text, to_record, KvStore, keys, is_pending, load_task_snapshot, prepend,
  load_keys, load_all_task_snapshots, record_option, load_task, keep_record, pending_records,
  recover_pending_tasks, keep_pending, recover_pending_snapshots,
}

text_is_pending :
    (d : DownloadState)
    → (string_eq.beq (status_text d) "downloading" || string_eq.beq (status_text d) "paused")
      ≡ is_pending d
unfolding status_text
text_is_pending DownloadState.pending = refl
text_is_pending DownloadState.connecting = refl
text_is_pending DownloadState.downloading = refl
text_is_pending DownloadState.paused = refl
text_is_pending DownloadState.resuming = refl
text_is_pending DownloadState.verifying = refl
text_is_pending DownloadState.completed = refl
text_is_pending DownloadState.failed = refl
text_is_pending DownloadState.cancelled = refl

choose_map :
    (b : Bool) (s : TaskSnapshot) (ss : List TaskSnapshot)
    → (if b then to_record s ∷ map to_record ss else map to_record ss)
      ≡ map to_record (if b then s ∷ ss else ss)
choose_map true s ss = refl
choose_map false s ss = refl

module _ (file_name_of : String → Option String) where
  keep_one :
      (o : Option TaskSnapshot) (ss : List TaskSnapshot)
      → keep_record (record_option o) (map to_record (keep_pending ss))
        ≡ map to_record (keep_pending (prepend o ss))
  unfolding to_record
  keep_one none ss = refl
  keep_one (some s) ss =
      ap
        (λ b.
          if b
          then to_record s ∷ map to_record (keep_pending ss)
          else map to_record (keep_pending ss))
        (text_is_pending s.status)
      ∙ choose_map (is_pending s.status) s (keep_pending ss)

  pending_of :
      (ks : List String) (store : KvStore)
      → pending_records file_name_of ks store
        ≡ map to_record (keep_pending (load_keys file_name_of ks store))
  unfolding load_task
  pending_of [] store = refl
  pending_of (key ∷ ks) store =
      ap (keep_record (record_option (load_task_snapshot file_name_of key store)))
        (pending_of ks store)
      ∙ keep_one (load_task_snapshot file_name_of key store) (load_keys file_name_of ks store)

-- The old and the new interface recover the same tasks, in the same order: the records of the old one are
-- those of the snapshots of the new one.
pub recover_pending_tasks-recover_pending_snapshots :
    (file_name_of : String → Option String) (store : KvStore)
    → recover_pending_tasks file_name_of store
      ≡ map to_record (recover_pending_snapshots file_name_of store)
unfolding recover_pending_tasks recover_pending_snapshots load_all_task_snapshots
recover_pending_tasks-recover_pending_snapshots file_name_of store =
    pending_of file_name_of (keys store) store
