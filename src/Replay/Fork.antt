-- ===== src/Replay/Fork.antt =====
-- `execute_fork` of crates/replay-engine/src/lib.rs: the run of a branch, from the plan to the records of
-- the branch, its run and its replay job.
pub mod Records
unfoldable pub use Records.*
use Prim.Native.String.{◌++◌}
use replay_kit.Common.{
  ℕ, String, Bool, true, false, ◌||◌, Option, none, some, List, [], any, keep, map, member, find,
  push_back,
}
use replay_kit.Common.Action.{ask, pure, lift, write, ◌>>=◌, ◌>>◌}
use replay_kit.Common.Eq.{◌==◌, ◌!=◌, string_eq, negate}
use replay_kit.Common.Hex.{decimal}
use replay_kit.Common.Int.{ℤ, as_i64}
use replay_kit.Common.Map.{is_some}
use replay_kit.Common.Result.{Result, ok, err}
use replay_kit.Common.Tests.{ltb, if◌then◌else◌}
use replay_kit.Model.Enums.{IdKind, RunStatus, ArtifactType, ReplayMode, ReplayJobStatus}
use replay_kit.Model.Records.{
  RunId, BranchId, ReplayJobId, ArtifactId, RunRecord, SpanRecord, ArtifactRecord, SnapshotRecord,
  SpanEdgeRecord, EventRecord, BranchRecord, ReplayJobRecord, BranchRequest,
}
use replay_kit.Model.Summary.{from_run_state}
use replay_kit.Model.Value.{Value, Document, insert_field}
use replay_kit.Replay.Containers.{replay_spans}
use replay_kit.Replay.Copy.{copy_run_data}
use replay_kit.Replay.Engine.{
  ReplayError, out_of_range, Machine, Session, Replaying, ExecutorRegistry, calls, looks,
}
use replay_kit.Replay.Persist.{patch_summary}
use replay_kit.Replay.Plan.{PlanState, BranchPlan, plan_state}
use replay_kit.Replay.Respan.{Progress}
use replay_kit.Replay.Rules.{derive_run_status}
use replay_kit.Replay.Sandbox.{ReplayWorkspace}
use replay_kit.Replay.Timeline.{Timeline, new_timeline, no_archives, item_at, start, start_detached}
use replay_kit.Storage.Artifacts.{list_artifacts, insert_artifact}
use replay_kit.Storage.Branches.{
  insert_branch, get_branch, insert_replay_job, get_replay_job, update_replay_job,
}
use replay_kit.Storage.Records.{list_snapshots, list_spans}
use replay_kit.Storage.Runs.{insert_run, update_run}
use replay_kit.Storage.State.{get_run, edges_of, events_of}
use replay_kit.Workspace.Archive.{WorkspaceArchive}
use replay_kit.Workspace.Points.{
  WorkspacePoint, workspace_snapshot_kind, order_key, new_id, on_state,
}

module _ {W : Type 0} (machine : Machine W) (registry : ExecutorRegistry W)
    (keep_sandbox : Bool) where
  abbrev pub plan_now : BranchRequest → Replaying W PlanState
  plan_now request s = (plan_state machine registry request s.store s.world, s)

  -- The variables of a new timeline.
  abbrev pub begin_line : List WorkspacePoint → Replaying W (Unit {0})
  begin_line points s = (ok tt, record s { archives = no_archives points; cursor = none })

  abbrev pub start_line : Timeline → Option ℕ → Option WorkspaceArchive → Replaying W (Unit {0})
  start_line line (some base) override_archive = start machine line base override_archive
  start_line line none override_archive = start_detached machine line override_archive

  abbrev pub clean_up : Bool → String → W → W
  clean_up true sandbox w = w
  clean_up false sandbox w = (machine.files.remove_dir_all sandbox w).1

  -- The sandbox is removed after the replay, whether that fails or not.
  abbrev pub cleaned :
      {A : Type 0} → String → Result ReplayError A × Session W → Result ReplayError A × Session W
  cleaned sandbox (r, s) = (r, record s { world = clean_up keep_sandbox sandbox s.world })

  unfoldable pub replay_in :
      BranchRequest
      → PlanState
      → RunId
      → ArtifactId
      → ReplayWorkspace
      → Timeline
      → Replaying W Progress
  replay_in request state target_run_id patch_id workspace line s = cleaned workspace.sandbox (
      replay_spans machine registry request state target_run_id patch_id workspace line
        line.created_at s)

  unfoldable pub read_source : RunId → Replaying W SourceRecords
  read_source source = do
    run ← looks (get_run source)
    artifacts ← looks (list_artifacts machine.env source)
    snapshots ← ask (λ s. list_snapshots source s.store.state)
    edges ← ask (λ s. edges_of s.store.state source)
    events ← ask (λ s. events_of s.store.state source)
    pure (record {
      run = run;
      artifacts = artifacts;
      snapshots = snapshots;
      edges = edges;
      events = events;
    })

  -- The records of the new run, up to the patch and the branch.
  unfoldable pub fork_records :
      BranchRequest
      → PlanState
      → SourceRecords
      → RunId
      → BranchId
      → ReplayJobId
      → Replaying W ArtifactId
  fork_records request state source target_run_id branch_id replay_job_id = do
    let now = request.patch_manifest.created_at
    let layout = state.layout
    calls
        (write (on_state (insert_replay_job (forked_job request replay_job_id target_run_id now))))
    base ← lift (base_ordinal layout.points layout.base_point)
    let copied = is_copied layout.points base
    calls (
        copy_run_data machine.env target_run_id layout.spans
          (copied_artifacts source.snapshots copied source.artifacts) (keep copied source.snapshots)
          source.edges source.events)
    patch_id ← calls (new_id IdKind.artifact)
    calls (
        write (
          on_state
            (insert_artifact machine.env (fork_artifact request target_run_id patch_id now))))
    calls (
        write (
          on_state (
            insert_branch machine.env
              (running_branch request branch_id target_run_id patch_id now))))
    pure patch_id

  unfoldable pub replay_fork :
      BranchRequest → PlanState → RunId → ArtifactId → String → Replaying W Progress
  replay_fork request state target_run_id patch_id sandbox = do
    let layout = state.layout
    let points = line_points layout.base_point layout.points
    let line = new_timeline target_run_id points sandbox request.patch_manifest.created_at
    begin_line points
    start_line line layout.base_point state.override_archive
    let workspace : ReplayWorkspace = record {
      sandbox = sandbox;
      recorded_root = layout.recorded_root;
    }
    replay_in request state target_run_id patch_id workspace line

  -- What is recorded of the end: the run, the branch and the job.
  unfoldable pub finish_fork :
      BranchRequest
      → PlanState
      → RunId
      → BranchId
      → ReplayJobId
      → String
      → Progress
      → Replaying W BranchExecution
  finish_fork request state target_run_id branch_id replay_job_id sandbox counts = do
    let now = request.patch_manifest.created_at
    spans ← ask (λ s. list_spans target_run_id s.store.state)
    started ← looks (get_run target_run_id)
    artifacts ← looks (list_artifacts machine.env target_run_id)
    let target_run = finished_run started spans artifacts now
    calls (write (on_state (update_run target_run)))
    running ← looks (get_branch branch_id)
    let branch : BranchRecord = record running { status = target_run.status }
    calls (write (on_state (insert_branch machine.env branch)))
    job ← looks (get_replay_job replay_job_id)
    let hermetic = is_some state.layout.base_point
    let replay_job = finished_job job target_run.status counts hermetic keep_sandbox sandbox now
    calls (write (on_state (update_replay_job replay_job)))
    pure (record {
      branch = branch;
      replay_job = replay_job;
      target_run = target_run;
      plan = state.plan;
    })

  unfoldable pub execute_fork : BranchRequest → Replaying W BranchExecution
  execute_fork request = do
    state ← plan_now request
    source ← read_source request.source_run_id
    target_run_id ← calls (new_id IdKind.run)
    branch_id ← calls (new_id IdKind.branch)
    replay_job_id ← calls (new_id IdKind.replay_job)
    calls (
        write (
          on_state (
            insert_run
              (branch_run source.run target_run_id branch_id request.patch_manifest.created_at))))
    patch_id ← fork_records request state source target_run_id branch_id replay_job_id
    sandbox ← ask (λ s. machine.sandbox_dir target_run_id s.world)
    counts ← replay_fork request state target_run_id patch_id sandbox
    finish_fork request state target_run_id branch_id replay_job_id sandbox counts
