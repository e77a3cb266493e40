-- ===== src/Collector/Spans.antt =====
-- `start_span` and `end_span`.
use replay_kit.Common.{ℕ, Bool, true, false, ◌&&◌, Option, none, some, List, [], ◌∷◌}
use replay_kit.Common.Action.{ask, pure, ◌>>=◌, ◌>>◌}
use replay_kit.Common.Eq.{negate}
use replay_kit.Common.Map.{is_some}
use replay_kit.Common.Tests.{leb}
use replay_kit.Collector.Checks.{
  Host, Recording, via, reading, writing, updating, refuse_unless, ensure_run_exists,
  ensure_optional_span, ensure_attached, lookup_artifact, lookup_snapshot, capture_workspace,
}
use replay_kit.Collector.Requests.{
  SpanSpec, EndSpan, no_input_artifact, no_output_artifact, span_exists, already_ended,
  span_ends_early,
}
use replay_kit.Collector.Runs.{is_terminal}
use replay_kit.Model.Enums.{SpanStatus, IdKind}
use replay_kit.Model.Records.{
  RunId, TraceId, SpanId, ArtifactId, SnapshotId, RunRecord, SpanRecord, no_cost,
}
use replay_kit.Storage.Records.{upsert_span}
use replay_kit.Storage.Runs.{next_sequence, update_run}
use replay_kit.Storage.State.{get_run, get_span, has_span}
use replay_kit.Workspace.Archive.{CaptureOptions}
use replay_kit.Workspace.Points.{WorkspacePhase, new_id}

-- The sequence number of the next record of a run.
abbrev pub sequence : RunId → Recording ℕ
sequence run_id = updating (next_sequence run_id)

unfoldable pub started_span : RunId → TraceId → SpanId → ℕ → SpanSpec → SpanRecord
started_span run_id trace_id span_id sequence_no spec = record {
  run_id = run_id;
  span_id = span_id;
  trace_id = trace_id;
  parent_span_id = spec.parent_span_id;
  sequence_no = sequence_no;
  kind = spec.kind;
  name = spec.name;
  status = SpanStatus.running;
  started_at = spec.started_at;
  ended_at = none;
  replay_policy = spec.replay_policy;
  executor_kind = spec.executor_kind;
  executor_version = spec.executor_version;
  input_artifact_ids = spec.input_artifact_ids;
  output_artifact_ids = [];
  snapshot_id = none;
  input_fingerprint = spec.input_fingerprint;
  output_fingerprint = none;
  environment_fingerprint = spec.environment_fingerprint;
  attributes = spec.attributes;
  error_code = none;
  error_summary = none;
  cost = no_cost;
}

unfoldable pub ended_span : EndSpan → SpanRecord → SpanRecord
ended_span update span = record span {
  ended_at = some update.ended_at;
  status = update.status;
  output_artifact_ids = update.output_artifact_ids;
  snapshot_id = update.snapshot_id;
  output_fingerprint = update.output_fingerprint;
  error_code = update.error_code;
  error_summary = update.error_summary;
  cost = update.cost;
}

-- The id that was asked for, unless it is taken, or a new one.
unfoldable pub choose_span_id : RunId → Option SpanId → Recording SpanId
choose_span_id run_id none = via (new_id IdKind.span)
choose_span_id run_id (some span_id) = do
  taken ← ask (λ st. has_span st.state run_id span_id)
  refuse_unless (negate taken) (span_exists span_id run_id)
  pure span_id

-- Whether a span becomes the root of its run: the first that has no parent.
abbrev pub becomes_root : SpanRecord → RunRecord → Bool
becomes_root span run = negate (is_some span.parent_span_id) && negate (is_some run.root_span_id)

unfoldable pub set_root_if : Bool → SpanRecord → RunRecord → Recording RunRecord
set_root_if true span run =
    let rooted : RunRecord = record run { root_span_id = some span.span_id } in
    writing (update_run rooted) >> pure rooted
set_root_if false span run = pure run

abbrev pub set_root : SpanRecord → RunRecord → Recording RunRecord
set_root span run = set_root_if (becomes_root span run) span run

module _ (host : Host) (options : CaptureOptions) where
  unfoldable pub lookup_inputs : RunId → List ArtifactId → Recording (Unit {0})
  lookup_inputs run_id [] = pure tt
  lookup_inputs run_id (id ∷ ids) =
      lookup_artifact host run_id id (no_input_artifact id run_id) >>= λ _. lookup_inputs run_id ids

  unfoldable pub check_outputs : RunId → SpanId → List ArtifactId → Recording (Unit {0})
  check_outputs run_id span_id [] = pure tt
  check_outputs run_id span_id (id ∷ ids) = do
    artifact ← lookup_artifact host run_id id (no_output_artifact id run_id)
    ensure_attached artifact.span_id artifact.artifact_id span_id "output artifact"
    check_outputs run_id span_id ids

  unfoldable pub check_snapshot : RunId → SpanId → Option SnapshotId → Recording (Unit {0})
  check_snapshot run_id span_id none = pure tt
  check_snapshot run_id span_id (some snapshot_id) = do
    snapshot ← lookup_snapshot host run_id snapshot_id
    ensure_attached snapshot.span_id snapshot.snapshot_id span_id "snapshot"

  unfoldable pub start_span : RunId → TraceId → SpanSpec → Recording SpanRecord
  start_span run_id trace_id spec = do
    ensure_run_exists run_id
    sequence_no ← sequence run_id
    ensure_optional_span run_id spec.parent_span_id
    lookup_inputs run_id spec.input_artifact_ids
    span_id ← choose_span_id run_id spec.span_id
    let span = started_span run_id trace_id span_id sequence_no spec
    writing (upsert_span span)
    run ← reading (get_run run_id)
    rooted_run ← set_root span run
    capture_workspace host options rooted_run (some span_id) WorkspacePhase.before span.started_at
    pure span

  unfoldable pub end_span : RunId → SpanId → EndSpan → Recording SpanRecord
  end_span run_id span_id update = do
    span ← reading (get_span run_id span_id)
    refuse_unless (negate (is_terminal span)) (already_ended span_id run_id)
    refuse_unless (leb span.started_at update.ended_at) (span_ends_early span_id run_id)
    check_outputs run_id span_id update.output_artifact_ids
    check_snapshot run_id span_id update.snapshot_id
    let ended = ended_span update span
    writing (upsert_span ended)
    run ← reading (get_run run_id)
    capture_workspace host options run (some ended.span_id) WorkspacePhase.after update.ended_at
    pure ended
