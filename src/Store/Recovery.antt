-- ===== src/Store/Recovery.antt =====
-- crates/tachyon-store/src/recovery.rs. The store is a map from task ids to what serde reads under
-- `task_{id}`, a snapshot or a record of the old form; its I/O errors are left out. The last component of
-- a path is an argument.
mod Updated
mod Pending
mod Examples
use Prim.Native.String.{String}
use ai_model_downloader.Base.{
  lookup, insert, remove, Eq, nat_eq, string_eq, lookup-insert, lookup-remove, ℕ, zero, suc, ◌+◌,
  ◌-◌, ◌*◌, ◌/◌, ◌%◌, ◌^◌, ◌≤◌, ◌<◌, min, max, ◌≡◌, refl, sym, ap, ◌∙◌, subst, ◌≢◌, ◌↔◌, ◌⊎◌, inl,
  inr, Bool, true, false, not, ◌&&◌, ◌||◌, Option, none, some, List, [], ◌∷◌, ◌++◌, map, arith,
  dec_lt, ℕ_discrete, ltb, leb, ◌==◌, if◌then◌else◌, ltb→lt, lt→ltb, leb→le, le→leb, ==_iff, lt→leb,
  ne→==, Bool-cases, Option-cases, some-eq, u8, u32, u64, u64_max, checked_add, length, get_elem?,
  set, take, drop, length-append, length-drop, length-set, All, Texts, codes, is_empty, is_some,
  same_text, to_lower, trim_start, trim_onto, trim_end, extend, before_last,
}
use ai_model_downloader.Core.State.{DownloadState}

pub record TaskSnapshot : Type 0 where
  pub id : String
  pub url : String
  pub save_path : String
  pub file_name : String
  pub file_size : Option ℕ
  pub downloaded : ℕ
  pub completed_fragments : List ℕ
  pub total_fragments : ℕ
  pub fragment_size : ℕ
  pub status : DownloadState
  pub etag : Option String
  pub last_modified : Option String
  pub content_length : Option ℕ
  pub created_at : String
  pub updated_at : String
  pub fail_reason : Option String
  pub retry_count : ℕ

pub record TaskRecord : Type 0 where
  pub task_id : String
  pub url : String
  pub save_path : String
  pub file_size : Option ℕ
  pub downloaded : ℕ
  pub completed_fragments : List ℕ
  pub total_fragments : ℕ
  pub status : String

-- `format!("{:?}", status).to_lowercase()`.
unfoldable pub status_text : DownloadState → String
status_text DownloadState.pending = "pending"
status_text DownloadState.connecting = "connecting"
status_text DownloadState.downloading = "downloading"
status_text DownloadState.paused = "paused"
status_text DownloadState.resuming = "resuming"
status_text DownloadState.verifying = "verifying"
status_text DownloadState.completed = "completed"
status_text DownloadState.failed = "failed"
status_text DownloadState.cancelled = "cancelled"

-- An unknown text is a failure.
unfoldable pub parse_legacy_status : String → DownloadState
parse_legacy_status status =
    if string_eq.beq status "pending"
    then DownloadState.pending
    else if string_eq.beq status "connecting"
    then DownloadState.connecting
    else if string_eq.beq status "downloading"
    then DownloadState.downloading
    else if string_eq.beq status "paused"
    then DownloadState.paused
    else if string_eq.beq status "resuming"
    then DownloadState.resuming
    else if string_eq.beq status "verifying"
    then DownloadState.verifying
    else if string_eq.beq status "completed"
    then DownloadState.completed
    else if string_eq.beq status "cancelled"
    then DownloadState.cancelled
    else DownloadState.failed

unfoldable pub to_record : TaskSnapshot → TaskRecord
to_record s = record {
  task_id = s.id;
  url = s.url;
  save_path = s.save_path;
  file_size = s.file_size;
  downloaded = s.downloaded;
  completed_fragments = s.completed_fragments;
  total_fragments = s.total_fragments;
  status = status_text s.status;
}

abbrev pub or_unknown : Option String → String
or_unknown (some name) = name
or_unknown none = "unknown"

-- What the JSON under a key parses as.
pub data Stored : Type 0 where
  saved : TaskSnapshot → Stored
  legacy : TaskRecord → Stored

abbrev pub KvStore : Type 0
KvStore = List (String × Stored)

abbrev pub is_pending : DownloadState → Bool
is_pending DownloadState.downloading = true
is_pending DownloadState.paused = true
is_pending _ = false

-- `keys`, without the prefix.
abbrev pub keys : KvStore → List String
keys [] = []
keys ((key, v) ∷ store) = key ∷ keys store

-- `contains`, and `push` where it is not there.
abbrev pub contains : ℕ → List ℕ → Bool
contains i [] = false
contains i (j ∷ js) = i == j || contains i js

unfoldable pub with_fragment : ℕ → List ℕ → List ℕ
with_fragment i done = if contains i done then done else done ++ (i ∷ [])

abbrev pub prepend : Option TaskSnapshot → List TaskSnapshot → List TaskSnapshot
prepend none ss = ss
prepend (some s) ss = s ∷ ss

abbrev pub record_option : Option TaskSnapshot → Option TaskRecord
record_option none = none
record_option (some s) = some (to_record s)

abbrev pub keep_record : Option TaskRecord → List TaskRecord → List TaskRecord
keep_record none rs = rs
keep_record (some r) rs =
    if string_eq.beq r.status "downloading" || string_eq.beq r.status "paused" then r ∷ rs else rs

abbrev pub keep_pending : List TaskSnapshot → List TaskSnapshot
keep_pending [] = []
keep_pending (s ∷ ss) = let rest = keep_pending ss in if is_pending s.status then s ∷ rest else rest

-- The name of a path's last component, if there is one and it is Unicode.
module _ (file_name_of : String → Option String) where
  unfoldable pub from_record : TaskRecord → TaskSnapshot
  from_record r = record {
    id = r.task_id;
    url = r.url;
    save_path = r.save_path;
    file_name = or_unknown (file_name_of r.save_path);
    file_size = r.file_size;
    downloaded = r.downloaded;
    completed_fragments = r.completed_fragments;
    total_fragments = r.total_fragments;
    fragment_size = 0;
    status = parse_legacy_status r.status;
    etag = none;
    last_modified = none;
    content_length = r.file_size;
    created_at = "";
    updated_at = "";
    fail_reason = none;
    retry_count = 0;
  }

  abbrev pub read : Stored → TaskSnapshot
  read (saved s) = s
  read (legacy r) = from_record r

  abbrev pub read_option : Option Stored → Option TaskSnapshot
  read_option none = none
  read_option (some v) = some (read v)

  unfoldable pub save_task_snapshot : TaskSnapshot → KvStore → KvStore
  save_task_snapshot s store = insert s.id (saved s) store

  unfoldable pub load_task_snapshot : String → KvStore → Option TaskSnapshot
  load_task_snapshot task_id store = read_option (lookup task_id store)

  abbrev pub load_keys : List String → KvStore → List TaskSnapshot
  load_keys [] store = []
  load_keys (key ∷ ks) store = prepend (load_task_snapshot key store) (load_keys ks store)

  unfoldable pub load_all_task_snapshots : KvStore → List TaskSnapshot
  load_all_task_snapshots store = load_keys (keys store) store

  unfoldable pub save_task : TaskRecord → KvStore → KvStore
  save_task r store = save_task_snapshot (from_record r) store

  unfoldable pub load_task : String → KvStore → Option TaskRecord
  load_task task_id store = record_option (load_task_snapshot task_id store)

  abbrev pub pending_records : List String → KvStore → List TaskRecord
  pending_records [] store = []
  pending_records (key ∷ ks) store = keep_record (load_task key store) (pending_records ks store)

  unfoldable pub recover_pending_tasks : KvStore → List TaskRecord
  recover_pending_tasks store = pending_records (keys store) store

  unfoldable pub recover_pending_snapshots : KvStore → List TaskSnapshot
  recover_pending_snapshots store = keep_pending (load_all_task_snapshots store)

  abbrev pub progressed : ℕ → ℕ → Option TaskRecord → KvStore → KvStore
  progressed i bytes none store = store
  progressed i bytes (some r) store =
      save_task
        (record r {
          completed_fragments = with_fragment i r.completed_fragments;
          downloaded = bytes;
        })
        store

  unfoldable pub update_fragment_progress : String → ℕ → ℕ → KvStore → KvStore
  update_fragment_progress task_id fragment_index downloaded_bytes store =
      progressed fragment_index downloaded_bytes (load_task task_id store) store
