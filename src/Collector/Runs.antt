-- ===== src/Collector/Runs.antt =====
-- `begin_run`, `finish_run` and `abort_run`.
use replay_kit.Common.{ℕ, String, Bool, true, false, Option, none, some, List, any}
use replay_kit.Common.Action.{ask, fail, pure, ◌>>=◌, ◌>>◌}
use replay_kit.Common.Eq.{negate}
use replay_kit.Common.Map.{is_some}
use replay_kit.Common.Tests.{leb}
use replay_kit.Collector.Checks.{
  Host, Recording, via, reading, writing, refuse_unless, capture_workspace,
}
use replay_kit.Collector.Requests.{
  BeginRun, invalid_input, unusable_root, root_not_a_directory, run_ends_early, still_running,
}
use replay_kit.Model.Enums.{RunStatus, IdKind}
use replay_kit.Model.Records.{RunId, TraceId, RunRecord, SpanRecord, ArtifactRecord, new_run}
use replay_kit.Model.Summary.{from_run_state}
use replay_kit.Storage.Artifacts.{list_artifacts}
use replay_kit.Storage.Records.{list_spans}
use replay_kit.Storage.Runs.{insert_run, update_run}
use replay_kit.Storage.State.{get_run}
use replay_kit.Workspace.Archive.{CaptureOptions}
use replay_kit.Workspace.Points.{WorkspacePhase, new_id}

-- `SpanRecord::is_terminal`.
abbrev pub is_terminal : SpanRecord → Bool
is_terminal span = is_some span.ended_at

-- `option.or_else(|| other)`.
abbrev pub or_else : Option String → Option String → Option String
or_else none other = other
or_else (some text) other = some text

-- The run that `begin_run` makes, without its workspace.
unfoldable pub requested_run : RunId → TraceId → BeginRun → RunRecord
unfolding new_run
requested_run run_id trace_id request =
    let run =
      new_run run_id trace_id request.title request.entrypoint request.adapter_name
        request.adapter_version request.started_at in
    record run {
      git_sha = request.git_sha;
      environment_fingerprint = request.environment_fingerprint;
      host = request.host;
      labels = request.labels;
    }

unfoldable pub finished_run :
    RunRecord → ℕ → RunStatus → List SpanRecord → List ArtifactRecord → Option String → RunRecord
unfolding from_run_state
finished_run run ended_at status spans artifacts preview = record run {
  ended_at = some ended_at;
  status = status;
  summary = from_run_state status spans artifacts preview;
}

module _ (host : Host) (options : CaptureOptions) where
  unfoldable pub usable_root : String → Option (String × Bool) → Recording (Option String)
  usable_root root none = fail (invalid_input (unusable_root root))
  usable_root root (some (canonical, true)) = pure (some canonical)
  usable_root root (some (canonical, false)) = fail (invalid_input (root_not_a_directory root))

  unfoldable pub root_of : Option String → Recording (Option String)
  unfolding usable_root
  root_of none = pure none
  root_of (some root) = usable_root root (host.canonicalize root)

  unfoldable pub begin_run : BeginRun → Recording RunRecord
  begin_run request = do
    run_id ← via (new_id IdKind.run)
    trace_id ← via (new_id IdKind.trace)
    root ← root_of request.workspace_root
    let run : RunRecord = record (requested_run run_id trace_id request) { workspace_root = root }
    writing (insert_run run)
    pure run

  unfoldable pub finish_run : RunId → ℕ → RunStatus → Option String → Recording RunRecord
  finish_run run_id ended_at status final_output_preview = do
    run ← reading (get_run run_id)
    refuse_unless (leb run.started_at ended_at) (run_ends_early run_id)
    spans ← ask (λ st. list_spans run_id st.state)
    refuse_unless (negate (any (λ span. negate (is_terminal span)) spans)) (still_running run_id)
    capture_workspace host options run none WorkspacePhase.end ended_at
    artifacts ← reading (list_artifacts host.env run_id)
    let preview = or_else final_output_preview run.summary.final_output_preview
    let finished = finished_run run ended_at status spans artifacts preview
    writing (update_run finished)
    pure finished

  unfoldable pub abort_run : RunId → ℕ → String → Recording RunRecord
  abort_run run_id ended_at error = do
    run ← reading (get_run run_id)
    refuse_unless (leb run.started_at ended_at) (run_ends_early run_id)
    spans ← ask (λ st. list_spans run_id st.state)
    artifacts ← reading (list_artifacts host.env run_id)
    let aborted = finished_run run ended_at RunStatus.interrupted spans artifacts (some error)
    writing (update_run aborted)
    pure aborted
