-- ===== src/Collector/Records.antt =====
-- `add_event`, `add_artifact`, `add_snapshot`, `add_edge` and the artifact of a patch.

use replay_kit.Common.{Option, none, some}
use replay_kit.Common.Action.{pure, ◌>>=◌, ◌>>◌}
use replay_kit.Collector.Checks.{
  Host, Recording, via, writing, ensure_run_exists, ensure_span_exists, ensure_optional_span,
  ensure_attached, lookup_artifact,
}
use replay_kit.Collector.Requests.{
  EventSpec, ArtifactSpec, SnapshotSpec, EdgeSpec, no_snapshot_artifact,
}
use replay_kit.Collector.Spans.{sequence}
use replay_kit.Model.Enums.{IdKind}
use replay_kit.Model.Records.{
  RunId, SpanId, ArtifactId, EventRecord, ArtifactRecord, SnapshotRecord, SpanEdgeRecord,
}
use replay_kit.Storage.Artifacts.{insert_artifact, store_artifact_with_content}
use replay_kit.Storage.Blob.{Bytes}
use replay_kit.Storage.Records.{insert_event, insert_snapshot, insert_edge}
use replay_kit.Workspace.Points.{new_id}

unfoldable pub add_event : RunId → SpanId → EventSpec → Recording EventRecord
add_event run_id span_id spec = do
  ensure_span_exists run_id span_id
  event_id ← via (new_id IdKind.event)
  sequence_no ← sequence run_id
  let event : EventRecord = record {
    event_id = event_id;
    run_id = run_id;
    span_id = span_id;
    sequence_no = sequence_no;
    timestamp = spec.timestamp;
    kind = spec.kind;
    payload = spec.payload;
  }
  writing (insert_event event)
  pure event

unfoldable pub specified_artifact :
    RunId → Option SpanId → ArtifactId → ArtifactSpec → ArtifactRecord
specified_artifact run_id span_id artifact_id spec = record {
  artifact_id = artifact_id;
  run_id = run_id;
  span_id = span_id;
  artifact_type = spec.artifact_type;
  mime = spec.mime;
  sha256 = spec.sha256;
  byte_len = spec.byte_len;
  blob_path = spec.blob_path;
  summary = spec.summary;
  redaction = spec.redaction;
  created_at = spec.created_at;
}

module _ (host : Host) where
  unfoldable pub keep_artifact : ArtifactRecord → Option Bytes → Recording ArtifactRecord
  keep_artifact artifact none = writing (insert_artifact host.env artifact) >> pure artifact
  keep_artifact artifact (some content) =
      via (store_artifact_with_content host.env artifact content)

  unfoldable pub add_artifact : RunId → Option SpanId → ArtifactSpec → Recording ArtifactRecord
  add_artifact run_id span_id spec = do
    ensure_run_exists run_id
    ensure_optional_span run_id span_id
    artifact_id ← via (new_id IdKind.artifact)
    keep_artifact (specified_artifact run_id span_id artifact_id spec) spec.content

  -- The checks of the span that a snapshot is said to be of.
  unfoldable pub check_span_of : RunId → Option SpanId → ArtifactRecord → Recording (Unit {0})
  check_span_of run_id none artifact = pure tt
  check_span_of run_id (some span_id) artifact = do
    ensure_span_exists run_id span_id
    ensure_attached artifact.span_id artifact.artifact_id span_id "snapshot artifact"

  unfoldable pub add_snapshot : RunId → Option SpanId → SnapshotSpec → Recording SnapshotRecord
  add_snapshot run_id span_id spec = do
    ensure_run_exists run_id
    artifact ←
        lookup_artifact host run_id spec.artifact_id (no_snapshot_artifact spec.artifact_id run_id)
    check_span_of run_id span_id artifact
    snapshot_id ← via (new_id IdKind.snapshot)
    let snapshot : SnapshotRecord = record {
      snapshot_id = snapshot_id;
      run_id = run_id;
      span_id = span_id;
      kind = spec.kind;
      artifact_id = spec.artifact_id;
      summary = spec.summary;
      created_at = spec.created_at;
    }
    writing (insert_snapshot host.env snapshot)
    pure snapshot

unfoldable pub add_edge : RunId → EdgeSpec → Recording SpanEdgeRecord
add_edge run_id spec = do
  ensure_run_exists run_id
  ensure_span_exists run_id spec.from_span_id
  ensure_span_exists run_id spec.to_span_id
  edge_id ← via (new_id IdKind.edge)
  let edge : SpanEdgeRecord = record {
    edge_id = edge_id;
    run_id = run_id;
    from_span_id = spec.from_span_id;
    to_span_id = spec.to_span_id;
    kind = spec.kind;
    attributes = spec.attributes;
  }
  writing (insert_edge edge)
  pure edge
