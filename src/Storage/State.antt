-- ===== src/Storage/State.antt =====
-- `MemoryState` of crates/storage/src/lib.rs, its `ensure_` checks, and the reads of one record. The
-- state stands behind one lock, so each operation runs alone; a poisoned lock is not modelled.
use replay_kit.Common.{ℕ, String, Bool, Option, none, some, List, []}
use replay_kit.Common.Eq.{string_eq}
use replay_kit.Common.Map.{Map, get, contains_key, is_some}
use replay_kit.Common.Result.{ok, err, guard, ok_or, ◌>>=◌, ◌>>◌}
use replay_kit.Common.Table.{get2, or_empty}
use replay_kit.Model.Enums.{IdKind}
use replay_kit.Model.Records.{
  RunId, SpanId, ArtifactId, SnapshotId, BranchId, ReplayJobId, RunRecord, SpanRecord, EventRecord,
  ArtifactRecord, SnapshotRecord, SpanEdgeRecord, BranchRecord, ReplayJobRecord, RunDiffRecord,
}
use replay_kit.Storage.Blob.{Env, Blobs}
use replay_kit.Storage.Error.{
  Checked, not_found, invalid_input, run_not_found, span_not_found, artifact_not_found,
  not_attached, other_span,
}
use replay_kit.Storage.Validate.{validate_artifact_record}

pub record MemoryState : Type 0 where
  pub runs : Map RunId RunRecord
  pub spans : Map RunId (Map SpanId SpanRecord)
  pub events : Map RunId (List EventRecord)
  pub artifacts : Map RunId (Map ArtifactId ArtifactRecord)
  pub snapshots : Map RunId (Map SnapshotId SnapshotRecord)
  pub edges : Map RunId (List SpanEdgeRecord)
  pub branches : Map BranchId BranchRecord
  pub replay_jobs : Map ReplayJobId ReplayJobRecord
  pub diffs : Map (RunId × RunId) RunDiffRecord
  pub sequences : Map RunId ℕ
  pub id_counters : Map IdKind ℕ

-- `InMemoryStorage`: the state, and the blob store beside it.
pub record InMemoryStorage : Type 0 where
  pub state : MemoryState
  pub blobs : Blobs

abbrev pub empty_state : MemoryState
empty_state = record {
  runs = [];
  spans = [];
  events = [];
  artifacts = [];
  snapshots = [];
  edges = [];
  branches = [];
  replay_jobs = [];
  diffs = [];
  sequences = [];
  id_counters = [];
}

-- The records of one run.
abbrev pub span_at : MemoryState → RunId → SpanId → Option SpanRecord
span_at s run_id span_id = get2 run_id span_id s.spans

abbrev pub artifact_at : MemoryState → RunId → ArtifactId → Option ArtifactRecord
artifact_at s run_id artifact_id = get2 run_id artifact_id s.artifacts

abbrev pub snapshot_at : MemoryState → RunId → SnapshotId → Option SnapshotRecord
snapshot_at s run_id snapshot_id = get2 run_id snapshot_id s.snapshots

abbrev pub events_of : MemoryState → RunId → List EventRecord
events_of s run_id = or_empty (get run_id s.events)

abbrev pub edges_of : MemoryState → RunId → List SpanEdgeRecord
edges_of s run_id = or_empty (get run_id s.edges)

abbrev pub has_run : MemoryState → RunId → Bool
has_run s run_id = contains_key run_id s.runs

abbrev pub has_span : MemoryState → RunId → SpanId → Bool
has_span s run_id span_id = is_some (span_at s run_id span_id)

unfoldable pub ensure_run_exists : MemoryState → RunId → Checked (Unit {0})
ensure_run_exists s run_id = guard (has_run s run_id) (not_found (run_not_found run_id))

unfoldable pub ensure_span_exists : MemoryState → RunId → SpanId → Checked (Unit {0})
ensure_span_exists s run_id span_id =
    guard (has_span s run_id span_id) (not_found (span_not_found span_id run_id))

-- The check of an optional span, `if let Some(span_id) = ... { ensure_span_exists(...)?; }`.
unfoldable pub ensure_optional_span : MemoryState → RunId → Option SpanId → Checked (Unit {0})
unfolding ensure_span_exists
ensure_optional_span s run_id none = ok tt
ensure_optional_span s run_id (some span_id) = ensure_span_exists s run_id span_id

unfoldable pub get_run : RunId → MemoryState → Checked RunRecord
get_run run_id s = ok_or (get run_id s.runs) (not_found (run_not_found run_id))

unfoldable pub get_span : RunId → SpanId → MemoryState → Checked SpanRecord
get_span run_id span_id s =
    ok_or (span_at s run_id span_id) (not_found (span_not_found span_id run_id))

-- `get_artifact` and `get_artifact_record`.
unfoldable pub get_artifact : Env → RunId → ArtifactId → MemoryState → Checked ArtifactRecord
get_artifact env run_id artifact_id s = do
  artifact ←
      ok_or (artifact_at s run_id artifact_id) (not_found (artifact_not_found artifact_id run_id))
  validate_artifact_record env artifact
  ok artifact

-- `ensure_artifact_attached_to_span`, with the label of its message.
unfoldable pub ensure_attached : Option SpanId → String → SpanId → String → Checked (Unit {0})
ensure_attached none id span_id label = err (invalid_input (not_attached label id span_id))
ensure_attached (some existing) id span_id label =
    guard (string_eq.equal existing span_id) (invalid_input (other_span label id existing span_id))
