-- ===== src/Storage/Validate.antt =====
-- `validate_artifact_record` of crates/storage/src/lib.rs.
use Prim.Native.String.{len}
use text.Mathlib.Text.{starts_with}
use replay_kit.Common.{ℕ, String, Bool, ◌&&◌, Option, none, some}
use replay_kit.Common.Eq.{◌==◌, ◌!=◌, nat_eq, negate}
use replay_kit.Common.Result.{ok, err}
use replay_kit.Common.Tests.{if◌then◌else◌}
use replay_kit.Common.Text.{is_blank, contains_text, drop_chars, all_hex}
use replay_kit.Model.Records.{ArtifactRecord}
use replay_kit.Storage.Blob.{Env}
use replay_kit.Storage.Error.{
  Checked, invalid_input, empty_mime, empty_sha256, empty_blob_path, unreadable_blob, not_a_file,
  wrong_size, not_a_digest,
}

unfoldable pub local_blob_path : String → Option String
local_blob_path blob_path =
    if starts_with blob_path "memory://"
    then none
    else if starts_with blob_path "file://"
    then some (drop_chars 7 blob_path)
    else if contains_text blob_path "://"
    then none
    else some blob_path

unfoldable pub looks_like_sha256 : String → Bool
looks_like_sha256 value = len value == 64 && all_hex value

module _ (artifact : ArtifactRecord) (blob_path : String) where
  -- What is asked of a file that is there.
  unfoldable pub check_metadata : Bool → ℕ → Checked (Unit {0})
  check_metadata is_file size =
      if negate is_file
      then err (invalid_input (not_a_file artifact.artifact_id blob_path))
      else if size != artifact.byte_len
      then err (invalid_input (wrong_size artifact.artifact_id blob_path artifact.byte_len size))
      else if negate (looks_like_sha256 artifact.sha256)
      then err (invalid_input (not_a_digest artifact.artifact_id blob_path))
      else ok tt

  -- The second half of the function, for a blob at a local path.
  unfoldable pub check_local_blob : Option (Bool × ℕ) → Checked (Unit {0})
  check_local_blob none = err (invalid_input (unreadable_blob artifact.artifact_id blob_path))
  check_local_blob (some (is_file, size)) = check_metadata is_file size

unfoldable pub check_path : Env → ArtifactRecord → Option String → Checked (Unit {0})
check_path env artifact none = ok tt
check_path env artifact (some path) = check_local_blob artifact path (env.metadata path)

unfoldable pub validate_artifact_record : Env → ArtifactRecord → Checked (Unit {0})
validate_artifact_record env artifact =
    if is_blank artifact.mime
    then err (invalid_input (empty_mime artifact.artifact_id))
    else if is_blank artifact.sha256
    then err (invalid_input (empty_sha256 artifact.artifact_id))
    else if is_blank artifact.blob_path
    then err (invalid_input (empty_blob_path artifact.artifact_id))
    else check_path env artifact (local_blob_path artifact.blob_path)
