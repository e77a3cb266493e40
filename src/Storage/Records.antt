-- ===== src/Storage/Records.antt =====
-- Spans, events, edges and snapshots: `upsert_span` to `list_edges` of `InMemoryStorage`.
use replay_kit.Common.{Option, none, some, List, any}
use replay_kit.Common.Eq.{◌==◌, string_eq, string_ord, negate}
use replay_kit.Common.Map.{get, values, is_some}
use replay_kit.Common.Result.{ok, guard, ok_or, ◌>>=◌, ◌>>◌}
use replay_kit.Common.Sort.{sort_by_key}
use replay_kit.Common.Table.{insert2, push, or_empty}
use replay_kit.Model.Records.{
  RunId, SpanId, SnapshotId, SpanRecord, EventRecord, SnapshotRecord, SpanEdgeRecord,
  ArtifactRecord,
}
use replay_kit.Storage.Blob.{Env}
use replay_kit.Storage.Error.{
  Checked, conflict, invalid_input, not_found, own_parent, event_exists, edge_exists,
  snapshot_exists, snapshot_not_found,
}
use replay_kit.Storage.State.{
  MemoryState, events_of, edges_of, snapshot_at, ensure_run_exists, ensure_span_exists,
  ensure_optional_span, ensure_attached, get_artifact,
}

-- The check of a span's parent.
unfoldable pub check_parent : MemoryState → RunId → SpanId → Option SpanId → Checked (Unit {0})
check_parent s run_id span_id none = ok tt
check_parent s run_id span_id (some parent) = do
  guard (negate (parent == span_id)) (invalid_input (own_parent span_id))
  ensure_span_exists s run_id parent

unfoldable pub upsert_span : SpanRecord → MemoryState → Checked MemoryState
upsert_span span s = do
  ensure_run_exists s span.run_id
  check_parent s span.run_id span.span_id span.parent_span_id
  ok (record s { spans = insert2 span.run_id span.span_id span s.spans })

unfoldable pub list_spans : RunId → MemoryState → List SpanRecord
list_spans run_id s =
    sort_by_key (λ span. span.sequence_no) (values (or_empty (get run_id s.spans)))

unfoldable pub insert_event : EventRecord → MemoryState → Checked MemoryState
insert_event event s = do
  ensure_run_exists s event.run_id
  ensure_span_exists s event.run_id event.span_id
  guard (negate (any (λ existing. existing.event_id == event.event_id) (events_of s event.run_id)))
      (conflict (event_exists event.event_id event.run_id))
  ok (record s { events = push event.run_id event s.events })

unfoldable pub insert_edge : SpanEdgeRecord → MemoryState → Checked MemoryState
insert_edge edge s = do
  ensure_run_exists s edge.run_id
  ensure_span_exists s edge.run_id edge.from_span_id
  ensure_span_exists s edge.run_id edge.to_span_id
  guard (negate (any (λ existing. existing.edge_id == edge.edge_id) (edges_of s edge.run_id)))
      (conflict (edge_exists edge.edge_id edge.run_id))
  ok (record s { edges = push edge.run_id edge s.edges })

-- The check that the artifact of a snapshot belongs to the span of the snapshot.
unfoldable pub check_snapshot_span : Option SpanId → ArtifactRecord → Checked (Unit {0})
check_snapshot_span none artifact = ok tt
check_snapshot_span (some span_id) artifact =
    ensure_attached artifact.span_id artifact.artifact_id span_id "snapshot artifact"

unfoldable pub insert_snapshot : Env → SnapshotRecord → MemoryState → Checked MemoryState
insert_snapshot env snapshot s = do
  ensure_run_exists s snapshot.run_id
  ensure_optional_span s snapshot.run_id snapshot.span_id
  artifact ← get_artifact env snapshot.run_id snapshot.artifact_id s
  check_snapshot_span snapshot.span_id artifact
  guard (negate (is_some (snapshot_at s snapshot.run_id snapshot.snapshot_id)))
      (conflict (snapshot_exists snapshot.snapshot_id snapshot.run_id))
  ok (record s { snapshots = insert2 snapshot.run_id snapshot.snapshot_id snapshot s.snapshots })

unfoldable pub get_snapshot : RunId → SnapshotId → MemoryState → Checked SnapshotRecord
get_snapshot run_id snapshot_id s =
    ok_or (snapshot_at s run_id snapshot_id) (not_found (snapshot_not_found snapshot_id run_id))

unfoldable pub list_snapshots : RunId → MemoryState → List SnapshotRecord
list_snapshots run_id s =
    sort_by_key (λ snapshot. snapshot.created_at) (values (or_empty (get run_id s.snapshots)))
