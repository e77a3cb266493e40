-- ===== src/Storage/Artifacts.antt =====
-- Artifacts and their content, with and without the blob store.
use Prim.Native.String.{◌++◌}
use replay_kit.Common.{List, [], ◌∷◌}
use replay_kit.Common.Eq.{string_eq, string_ord, negate}
use replay_kit.Common.Map.{get, values, is_some}
use replay_kit.Common.Result.{ok, err, guard, ◌>>=◌, ◌>>◌}
use replay_kit.Common.Sort.{sort_by_key}
use replay_kit.Common.Table.{insert2, or_empty}
use replay_kit.Model.Records.{RunId, ArtifactId, ArtifactRecord}
use replay_kit.Storage.Blob.{Env, Bytes, BlobRef, BlobIntegrity, store, read, verify}
use replay_kit.Storage.Error.{Checked, conflict, artifact_exists}
use replay_kit.Storage.State.{
  MemoryState, InMemoryStorage, artifact_at, ensure_run_exists, ensure_optional_span, get_artifact,
}
use replay_kit.Storage.Validate.{validate_artifact_record}

module _ (env : Env) where
  -- `insert_artifact_state`, which `insert_artifact` calls.
  unfoldable pub insert_artifact : ArtifactRecord → MemoryState → Checked MemoryState
  insert_artifact artifact s = do
    ensure_run_exists s artifact.run_id
    ensure_optional_span s artifact.run_id artifact.span_id
    validate_artifact_record env artifact
    guard (negate (is_some (artifact_at s artifact.run_id artifact.artifact_id)))
        (conflict (artifact_exists artifact.artifact_id artifact.run_id))
    ok (record s { artifacts = insert2 artifact.run_id artifact.artifact_id artifact s.artifacts })

  -- `for artifact in &artifacts { validate_artifact_record(artifact)?; }`.
  unfoldable pub validate_all : List ArtifactRecord → Checked (Unit {0})
  validate_all [] = ok tt
  validate_all (artifact ∷ artifacts) = do
    validate_artifact_record env artifact
    validate_all artifacts

  unfoldable pub list_artifacts : RunId → MemoryState → Checked (List ArtifactRecord)
  list_artifacts run_id s = do
    let artifacts = values (or_empty (get run_id s.artifacts))
    validate_all artifacts
    ok (sort_by_key (λ artifact. artifact.created_at) artifacts)

  -- The record as it is stored: where the content went, and how long it is.
  unfoldable pub with_blob : ArtifactRecord → BlobRef → ArtifactRecord
  with_blob artifact blob_ref = record artifact {
    sha256 = blob_ref.sha256;
    byte_len = blob_ref.byte_len;
    blob_path = "memory://blob/" ++ blob_ref.sha256;
  }

  -- What comes after the blob is stored: on an error the blob stays.
  unfoldable pub record_stored :
      ArtifactRecord
      → InMemoryStorage
      → Checked MemoryState
      → Checked ArtifactRecord × InMemoryStorage
  record_stored artifact st (ok s) = (ok artifact, record st { state = s })
  record_stored artifact st (err e) = (err e, st)

  unfoldable pub store_artifact_with_content :
      ArtifactRecord → Bytes → InMemoryStorage → Checked ArtifactRecord × InMemoryStorage
  store_artifact_with_content artifact content st =
      let (blob_ref, blobs) = store env content st.blobs in
      let stored = with_blob artifact blob_ref in
      record_stored stored (record st { blobs = blobs }) (insert_artifact stored st.state)

  -- The reference to the content of a recorded artifact.
  abbrev pub blob_of : ArtifactRecord → BlobRef
  blob_of artifact = record { sha256 = artifact.sha256; byte_len = artifact.byte_len }

  unfoldable pub read_artifact_content : RunId → ArtifactId → InMemoryStorage → Checked Bytes
  read_artifact_content run_id artifact_id st = do
    artifact ← get_artifact env run_id artifact_id st.state
    read (blob_of artifact) st.blobs

  unfoldable pub verify_artifact_integrity :
      RunId → ArtifactId → InMemoryStorage → Checked BlobIntegrity
  verify_artifact_integrity run_id artifact_id st = do
    artifact ← get_artifact env run_id artifact_id st.state
    ok (verify env (blob_of artifact) st.blobs)
