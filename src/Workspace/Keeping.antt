-- ===== src/Workspace/Keeping.antt =====
-- The capture of a workspace keeps whatever its calls of the store keep.
use replay_kit.Common.{ℕ, String, Option, List, ◌≡◌, refl}
use replay_kit.Common.Action.{Keeps, keeps-bind, keeps-then, keeps-read, write}
use replay_kit.Common.Int.{ℤ}
use replay_kit.Model.Enums.{IdKind}
use replay_kit.Model.Records.{RunId, SpanId, ArtifactRecord, SnapshotRecord}
use replay_kit.Storage.Artifacts.{store_artifact_with_content}
use replay_kit.Storage.Blob.{Env, Bytes}
use replay_kit.Storage.Records.{insert_snapshot}
use replay_kit.Storage.State.{InMemoryStorage}
use replay_kit.Workspace.Archive.{WorkspaceEntry, WorkspaceArchive, Node, CaptureOptions}
use replay_kit.Workspace.Points.{
  WorkspacePhase, new_id, on_state, record_workspace_point, capture_workspace_point,
}

-- What a property of the store has to survive for a capture in a run to keep it.
pub record Calls (P : InMemoryStorage → Type 0) (env : Env) (run_id : RunId) : Type 0 where
  pub ids : (kind : IdKind) → Keeps P (new_id kind)
  pub contents :
      (artifact : ArtifactRecord) (content : Bytes)
      → artifact.run_id ≡ run_id
      → Keeps P (store_artifact_with_content env artifact content)
  pub snapshots :
      (snapshot : SnapshotRecord)
      → snapshot.run_id ≡ run_id
      → Keeps P (write (on_state (insert_snapshot env snapshot)))

module _ (P : InMemoryStorage → Type 0) (env : Env) (run_id : RunId) (calls : Calls P env run_id)
    (manifest_json : List WorkspaceEntry → Bytes) where
  pub record_workspace_point-Keeps :
      (span_id : Option SpanId) (phase : WorkspacePhase) (ordinal : ℤ) (archive : WorkspaceArchive)
      (root_label : String) (created_at : ℕ)
      → Keeps P (
          record_workspace_point env manifest_json run_id span_id phase ordinal archive root_label
            created_at)
  unfolding record_workspace_point
  record_workspace_point-Keeps span_id phase ordinal archive root_label created_at =
      keeps-bind P _ _ (calls.ids IdKind.artifact) (λ artifact_id.
        keeps-bind P _ _ (calls.contents _ _ refl) (λ artifact.
          keeps-bind P _ _ (calls.ids IdKind.snapshot)
            (λ snapshot_id. keeps-then P _ _ (calls.snapshots _ refl) (keeps-read P _))))

  pub capture_workspace_point-Keeps :
      (span_id : Option SpanId) (phase : WorkspacePhase) (root : String) (found : Node)
      (options : CaptureOptions) (created_at : ℕ)
      → Keeps P (
          capture_workspace_point env manifest_json run_id span_id phase root found options
            created_at)
  unfolding capture_workspace_point
  capture_workspace_point-Keeps span_id phase root found options created_at =
      keeps-bind P _ _ (keeps-read P _) (λ archive.
        keeps-bind P _ _ (keeps-read P _)
          (λ points. record_workspace_point-Keeps span_id phase _ archive root created_at))
