-- ===== src/Replay/Fork/Records.antt =====
-- The records that `execute_fork` of crates/replay-engine/src/lib.rs makes of a branch: its run, its job,
-- its patch and itself, and those at its end.
use Prim.Native.String.{◌++◌}
use replay_kit.Common.{
  ℕ, String, Bool, true, false, ◌||◌, Option, none, some, List, [], any, keep, map, member, find,
  push_back,
}
use replay_kit.Common.Eq.{◌==◌, ◌!=◌, string_eq, negate}
use replay_kit.Common.Hex.{decimal}
use replay_kit.Common.Int.{ℤ, as_i64}
use replay_kit.Common.Result.{Result, ok, err}
use replay_kit.Common.Tests.{ltb, if◌then◌else◌}
use replay_kit.Model.Enums.{RunStatus, ArtifactType, ReplayMode, ReplayJobStatus}
use replay_kit.Model.Records.{
  RunId, BranchId, ReplayJobId, ArtifactId, RunRecord, SpanRecord, ArtifactRecord, SnapshotRecord,
  SpanEdgeRecord, EventRecord, BranchRecord, ReplayJobRecord, BranchRequest,
}
use replay_kit.Model.Summary.{from_run_state}
use replay_kit.Model.Value.{Value, Document, insert_field}
use replay_kit.Replay.Engine.{ReplayError, out_of_range}
use replay_kit.Replay.Persist.{patch_summary}
use replay_kit.Replay.Plan.{BranchPlan}
use replay_kit.Replay.Respan.{Progress}
use replay_kit.Replay.Rules.{derive_run_status}
use replay_kit.Replay.Timeline.{item_at}
use replay_kit.Workspace.Points.{WorkspacePoint, workspace_snapshot_kind, order_key}

pub record BranchExecution : Type 0 where
  pub branch : BranchRecord
  pub replay_job : ReplayJobRecord
  pub target_run : RunRecord
  pub plan : BranchPlan

-- What the source run has, read before the new run is made.
pub record SourceRecords : Type 0 where
  pub run : RunRecord
  pub artifacts : List ArtifactRecord
  pub snapshots : List SnapshotRecord
  pub edges : List SpanEdgeRecord
  pub events : List EventRecord

abbrev pub branch_labels : List String → List String
branch_labels labels =
    if any (λ label. label == "branch") labels then labels else push_back labels "branch"

unfoldable pub branch_run : RunRecord → RunId → BranchId → ℕ → RunRecord
branch_run source_run run_id branch_id now = record source_run {
  run_id = run_id;
  source_run_id = some source_run.run_id;
  branch_id = some branch_id;
  started_at = now;
  ended_at = none;
  status = RunStatus.running;
  labels = branch_labels source_run.labels;
}

unfoldable pub forked_job : BranchRequest → ReplayJobId → RunId → ℕ → ReplayJobRecord
forked_job request replay_job_id target_run_id now = record {
  replay_job_id = replay_job_id;
  source_run_id = request.source_run_id;
  target_run_id = some target_run_id;
  mode = ReplayMode.forked;
  status = ReplayJobStatus.running;
  created_at = now;
  started_at = some now;
  ended_at = none;
  progress = Document.empty;
  error_summary = none;
}

-- The snapshots that are copied: no workspace points from the base onwards, which the replay records.
abbrev pub is_earlier : Option ℤ → Option WorkspacePoint → Bool
is_earlier (some base) (some point) = ltb (order_key point.ordinal) (order_key base)
is_earlier _ _ = false

unfoldable pub is_copied : List WorkspacePoint → Option ℤ → SnapshotRecord → Bool
is_copied points base snapshot =
    snapshot.kind != workspace_snapshot_kind
    || is_earlier base (find (λ p. p.snapshot.snapshot_id == snapshot.snapshot_id) points)

-- The artifacts of the snapshots that are not copied are left out.
unfoldable pub copied_artifacts :
    List SnapshotRecord → (SnapshotRecord → Bool) → List ArtifactRecord → List ArtifactRecord
copied_artifacts snapshots copied artifacts =
    let left_out =
      map (λ snapshot. snapshot.artifact_id)
        (keep (λ snapshot. negate (copied snapshot)) snapshots) in
    keep (λ artifact. negate (member artifact.artifact_id left_out)) artifacts

unfoldable pub fork_artifact : BranchRequest → RunId → ArtifactId → ℕ → ArtifactRecord
fork_artifact request target_run_id artifact_id now = record {
  artifact_id = artifact_id;
  run_id = target_run_id;
  span_id = some request.fork_span_id;
  artifact_type = ArtifactType.patch_manifest;
  mime = "application/replaykit-patch";
  sha256 =
      "patch:"
      ++ request.source_run_id
      ++ ":"
      ++ request.fork_span_id
      ++ ":"
      ++ decimal request.patch_manifest.created_at;
  byte_len = 1;
  blob_path = "memory://patch/" ++ request.fork_span_id;
  summary = patch_summary request;
  redaction = Document.empty;
  created_at = now;
}

unfoldable pub running_branch : BranchRequest → BranchId → RunId → ArtifactId → ℕ → BranchRecord
running_branch request branch_id target_run_id artifact_id now = record {
  branch_id = branch_id;
  source_run_id = request.source_run_id;
  target_run_id = target_run_id;
  fork_span_id = request.fork_span_id;
  patch_manifest_artifact_id = artifact_id;
  created_at = now;
  created_by = request.created_by;
  status = RunStatus.running;
}

unfoldable pub job_status : RunStatus → ReplayJobStatus
job_status RunStatus.blocked = ReplayJobStatus.blocked
job_status RunStatus.failed = ReplayJobStatus.failed
job_status _ = ReplayJobStatus.completed

abbrev pub kept_sandbox : Bool → String → Document → Document
kept_sandbox true sandbox d = insert_field "sandbox" (Value.text sandbox) d
kept_sandbox false sandbox d = d

unfoldable pub finished_job :
    ReplayJobRecord → RunStatus → Progress → Bool → Bool → String → ℕ → ReplayJobRecord
finished_job job status counts hermetic keep_sandbox sandbox now = record job {
  status = job_status status;
  ended_at = some now;
  progress = kept_sandbox keep_sandbox sandbox (
      insert_field "hermetic" (Value.bool hermetic) (
        insert_field "blocked" (Value.int (as_i64 counts.blocked)) (
          insert_field "reused_unchanged" (Value.int (as_i64 counts.reused))
            (insert_field "executed" (Value.int (as_i64 counts.executed)) job.progress))));
}

unfoldable pub finished_run : RunRecord → List SpanRecord → List ArtifactRecord → ℕ → RunRecord
finished_run run spans artifacts now =
    let status = derive_run_status spans in
    record run {
      ended_at = some now;
      status = status;
      summary = from_run_state status spans artifacts none;
    }

-- The points that the timeline goes along: none where there is no base.
abbrev pub line_points : Option ℕ → List WorkspacePoint → List WorkspacePoint
line_points none points = []
line_points (some base) points = points

abbrev pub base_ordinal : List WorkspacePoint → Option ℕ → Result ReplayError (Option ℤ)
base_ordinal points none = ok none
base_ordinal points (some index) = elim (item_at index points) [
  | none ↦ err out_of_range
  | some point ↦ ok (some point.ordinal)
]
