-- ===== src/Replay/Persist.antt =====
-- What a replay writes for one span: `mark_blocked`, `persist_executor_artifacts`,
-- `persist_executor_snapshot`, `satisfy_with_patch` and `patch_summary`.
use Prim.Native.String.{◌++◌}
use replay_kit.Common.{ℕ, String, Option, none, some, List, [], ◌∷◌, length, member}
use replay_kit.Common.Action.{fail, write, pure, lift, ◌>>◌, ◌>>=◌}
use replay_kit.Common.Eq.{◌==◌, string_eq}
use replay_kit.Common.Result.{Result, ok, err, map_err, map_ok}
use replay_kit.Common.Tests.{if◌then◌else◌}
use replay_kit.Common.Text.{take_chars}
use replay_kit.Common.Utf8.{utf8}
use replay_kit.Collector.Patch.{patch_type_name, insert_text}
use replay_kit.Model.Enums.{SpanKind, SpanStatus, ArtifactType, IdKind}
use replay_kit.Model.Records.{
  RunId, SpanId, ArtifactId, SnapshotId, SpanRecord, ArtifactRecord, SnapshotRecord, BranchRequest,
}
use replay_kit.Model.Value.{Value, Document, insert_field}
use replay_kit.Replay.Effective.{inline_content_key}
use replay_kit.Replay.Engine.{invalid_patch, ProducedArtifact, ProducedSnapshot, Replaying, calls}
use replay_kit.Replay.Inputs.{replacement_text, patched_attr}
use replay_kit.Replay.Rules.{PatchError, no_text, reset_span_for_replay, replace_artifact_id}
use replay_kit.Storage.Artifacts.{insert_artifact, store_artifact_with_content}
use replay_kit.Storage.Blob.{Env, Bytes}
use replay_kit.Storage.Error.{StorageError, Checked}
use replay_kit.Storage.Records.{upsert_span, insert_snapshot}
use replay_kit.Storage.State.{InMemoryStorage}
use replay_kit.Workspace.Points.{Service, on_state, new_id}

unfoldable pub blocked_span : SpanRecord → String → ℕ → SpanRecord
blocked_span span reason now = record (reset_span_for_replay span) {
  status = SpanStatus.blocked;
  ended_at = some now;
  error_summary = some ("replay blocked: " ++ reason);
}

abbrev pub mark_blocked : SpanRecord → String → ℕ → Service (Unit {0})
mark_blocked span reason now = write (on_state (upsert_span (blocked_span span reason now)))

unfoldable pub produced_record : RunId → SpanId → ArtifactId → ProducedArtifact → ArtifactRecord
produced_record run_id span_id artifact_id artifact = record {
  artifact_id = artifact_id;
  run_id = run_id;
  span_id = some span_id;
  artifact_type = artifact.artifact_type;
  mime = artifact.mime;
  sha256 = artifact.sha256;
  byte_len = artifact.byte_len;
  blob_path = artifact.blob_path;
  summary = artifact.summary;
  redaction = artifact.redaction;
  created_at = artifact.created_at;
}

unfoldable pub patch_summary : BranchRequest → Document
patch_summary request =
    let manifest = request.patch_manifest in
    insert_text "note" manifest.note (
      insert_field "replacement" manifest.replacement (
        insert_field "fork_span_id" (Value.text request.fork_span_id) (
          insert_field "patch_type" (Value.text (patch_type_name manifest.patch_type))
            Document.empty)))

module _ (env : Env) where
  abbrev pub persist_content : ArtifactRecord → Option Bytes → Service (Unit {0})
  persist_content artifact (some content) =
      store_artifact_with_content env artifact content >>= λ _. pure tt
  persist_content artifact none = write (on_state (insert_artifact env artifact))

  unfoldable pub persist_executor_artifacts :
      RunId → SpanId → List ProducedArtifact → Service (List ArtifactId)
  persist_executor_artifacts run_id span_id [] = pure []
  persist_executor_artifacts run_id span_id (artifact ∷ artifacts) = do
    artifact_id ← new_id IdKind.artifact
    persist_content (produced_record run_id span_id artifact_id artifact) artifact.content
    rest ← persist_executor_artifacts run_id span_id artifacts
    pure (artifact_id ∷ rest)

  unfoldable pub persist_executor_snapshot :
      RunId → SpanId → Option ProducedSnapshot → Service (Option SnapshotId)
  persist_executor_snapshot run_id span_id none = pure none
  persist_executor_snapshot run_id span_id (some snapshot) = do
    artifact_id ← new_id IdKind.artifact
    let produced = snapshot.artifact
    persist_content (produced_record run_id span_id artifact_id produced) produced.content
    snapshot_id ← new_id IdKind.snapshot
    let snapshot_record : SnapshotRecord = record {
      snapshot_id = snapshot_id;
      run_id = run_id;
      span_id = some span_id;
      kind = snapshot.kind;
      artifact_id = artifact_id;
      summary = snapshot.summary;
      created_at = snapshot.created_at;
    }
    write (on_state (insert_snapshot env snapshot_record))
    pure (some snapshot_id)

  -- The artifact that keeps a patched text in its summary, for stores without a blob store.
  unfoldable pub inline_artifact : ArtifactRecord → String → ArtifactRecord
  inline_artifact artifact text = record artifact {
    sha256 = env.sha256_hex (utf8 text);
    blob_path = "inline://" ++ artifact.artifact_id;
    summary = insert_field inline_content_key (Value.text text) artifact.summary;
  }

  abbrev pub store_inline : ArtifactRecord → String → StorageError → Service ArtifactRecord
  store_inline artifact text (StorageError.internal message) = do
    write (on_state (insert_artifact env (inline_artifact artifact text)))
    pure (inline_artifact artifact text)
  store_inline artifact text e = fail e

  abbrev pub or_inline :
      ArtifactRecord
      → String
      → Checked ArtifactRecord × InMemoryStorage
      → Checked ArtifactRecord × InMemoryStorage
  or_inline artifact text (ok stored, st) = (ok stored, st)
  or_inline artifact text (err e, st) = store_inline artifact text e st

  unfoldable pub store_patched : ArtifactRecord → String → Service ArtifactRecord
  store_patched artifact text st =
      or_inline artifact text (store_artifact_with_content env artifact (utf8 text) st)

-- The id becomes the first, if it is there.
unfoldable pub without_first : ArtifactId → List ArtifactId → List ArtifactId
without_first id [] = []
without_first id (x ∷ xs) = let rest = without_first id xs in if x == id then xs else x ∷ rest

unfoldable pub to_front : ArtifactId → List ArtifactId → List ArtifactId
to_front id ids = if member id ids then id ∷ without_first id ids else ids

unfoldable pub place_output :
    Option ArtifactId → ArtifactId → List ArtifactId → Result PatchError (List ArtifactId)
place_output none stored ids = ok (stored ∷ [])
place_output (some target) stored ids =
    map_ok (to_front stored) (replace_artifact_id ids target stored)

unfoldable pub patched_kind : SpanKind → ArtifactType
patched_kind SpanKind.retrieval = ArtifactType.retrieval_result
patched_kind SpanKind.file_read = ArtifactType.file_blob
patched_kind _ = ArtifactType.tool_output

unfoldable pub patched_artifact : SpanRecord → ArtifactId → ArtifactId → String → ℕ → ArtifactRecord
patched_artifact span patch_id artifact_id text now = record {
  artifact_id = artifact_id;
  run_id = span.run_id;
  span_id = some span.span_id;
  artifact_type = patched_kind span.kind;
  mime = "text/plain";
  sha256 = "";
  byte_len = length (utf8 text);
  blob_path = "";
  summary =
      insert_field "preview" (Value.text (take_chars 200 text))
        (insert_field "patched_by" (Value.text patch_id) Document.empty);
  redaction = Document.empty;
  created_at = now;
}

abbrev pub mark_patched : BranchRequest → Document → Document
mark_patched request =
    insert_field patched_attr (Value.text (patch_type_name request.patch_manifest.patch_type))

unfoldable pub patched_span : BranchRequest → SpanRecord → List ArtifactId → String → ℕ → SpanRecord
patched_span request span outputs fingerprint now = record span {
  output_artifact_ids = outputs;
  output_fingerprint = some fingerprint;
  status = SpanStatus.completed;
  ended_at = some now;
  error_code = none;
  error_summary = none;
  attributes = mark_patched request span.attributes;
}

-- The span with the patched text as its output, which the caller then stores.
unfoldable pub satisfy_with_patch :
    {W : Type 0} → Env → BranchRequest → SpanRecord → ArtifactId → ℕ → Replaying W SpanRecord
satisfy_with_patch env request span patch_id now = do
  text ← lift (
      map_err (λ e. invalid_patch (no_text e))
        (replacement_text request.patch_manifest.replacement))
  artifact_id ← calls (new_id IdKind.artifact)
  stored ← calls (store_patched env (patched_artifact span patch_id artifact_id text now) text)
  outputs ← lift (
      map_err invalid_patch (
        place_output request.patch_manifest.target_artifact_id stored.artifact_id
          span.output_artifact_ids))
  pure (patched_span request span outputs (env.sha256_hex (utf8 text)) now)
