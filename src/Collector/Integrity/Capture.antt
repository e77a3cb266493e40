-- ===== src/Collector/Integrity/Capture.antt =====
-- The capture of a workspace by the collector keeps whatever its calls of the store keep: the store
-- well formed, and the runs, spans, events and edges as they are.
use replay_kit.Common.{ℕ, String, Option, none, some}
use replay_kit.Common.Action.{Keeps}
use replay_kit.Collector.Checks.{Host, capture_root, capture_workspace}
use replay_kit.Collector.Integrity.{Sound, new_id-Keeps, store-Keeps, write-Keeps}
use replay_kit.Model.Records.{RunId, SpanId, RunRecord}
use replay_kit.Storage.Blob.{Env}
use replay_kit.Storage.Integrity.Artifacts.{insert_snapshot-IsWellFormed}
use replay_kit.Storage.Records.{insert_snapshot}
use replay_kit.Storage.State.{InMemoryStorage}
use replay_kit.Workspace.Archive.{CaptureOptions}
use replay_kit.Workspace.Keeping.{Calls, capture_workspace_point-Keeps}
use replay_kit.Workspace.Points.{WorkspacePhase}

module _ (P : InMemoryStorage → Type 0) (host : Host)
    (calls : (run_id : RunId) → Calls P host.env run_id) where
  pub capture-Keeps :
      (options : CaptureOptions) (run : RunRecord) (span_id : Option SpanId)
      (phase : WorkspacePhase) (at : ℕ)
      → Keeps P (capture_workspace host options run span_id phase at)
  unfolding Keeps capture_workspace capture_root
  capture-Keeps options run span_id phase at st w = go run.workspace_root
    where
      go : (root : Option String) → P (capture_root host options run span_id phase at root st).1
      go none = w
      go (some root) =
          capture_workspace_point-Keeps P host.env run.run_id (calls run.run_id) host.manifest_json
            span_id phase root (host.node_at root) options at st w

pub Sound-Calls : (env : Env) (run_id : RunId) → Calls Sound env run_id
Sound-Calls env run_id = record {
  ids = new_id-Keeps;
  contents = λ artifact content h. store-Keeps env artifact content;
  snapshots = λ snapshot e.
      write-Keeps (insert_snapshot env snapshot)
        (λ s t h w. insert_snapshot-IsWellFormed env s snapshot h w);
}

pub capture_workspace-Keeps :
    (host : Host) (options : CaptureOptions) (run : RunRecord) (span_id : Option SpanId)
    (phase : WorkspacePhase) (at : ℕ)
    → Keeps Sound (capture_workspace host options run span_id phase at)
capture_workspace-Keeps host = capture-Keeps Sound host (Sound-Calls host.env)
