-- ===== src/Storage/Error.antt =====
-- `StorageError` of crates/storage/src/lib.rs. A message is kept as the format string's name with
-- its arguments; its text is never read by the program.
use replay_kit.Common.{ℕ, String}
use replay_kit.Common.Result.{Result}

pub data Message : Type 0 where
  run_not_found : String → Message
  run_exists : String → Message
  span_not_found : String → String → Message
  own_parent : String → Message
  event_exists : String → String → Message
  artifact_not_found : String → String → Message
  artifact_exists : String → String → Message
  empty_mime : String → Message
  empty_sha256 : String → Message
  empty_blob_path : String → Message
  unreadable_blob : String → String → Message
  not_a_file : String → String → Message
  wrong_size : String → String → ℕ → ℕ → Message
  not_a_digest : String → String → Message
  snapshot_not_found : String → String → Message
  snapshot_exists : String → String → Message
  edge_exists : String → String → Message
  branch_not_found : String → Message
  job_not_found : String → Message
  job_exists : String → Message
  diff_not_found : String → String → Message
  blob_not_found : String → Message
  not_attached : String → String → String → Message
  other_span : String → String → String → String → Message
  escapes_workspace : String → Message
  not_a_directory : String → Message
  unreadable_path : String → Message
  not_in_utf8 : String → Message
  too_large : ℕ → Message
  io_failed : String → String → Message
  target_not_empty : String → Message
  empty_entry_path : Message
  bad_archive : String → Message

pub data StorageError : Type 0 where
  not_found : Message → StorageError
  conflict : Message → StorageError
  invalid_input : Message → StorageError
  internal : Message → StorageError

abbrev pub Checked : Type 0 → Type 0
Checked A = Result StorageError A
