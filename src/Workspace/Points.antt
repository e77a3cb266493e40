-- ===== src/Workspace/Points.antt =====
-- The workspace snapshots of a run: `WorkspacePhase`, `list_workspace_points`,
-- `record_workspace_point` and `capture_workspace_point`.
use replay_kit.Common.{
  ℕ, zero, suc, length, ◌+◌, ◌-◌, ◌^◌, String, Option, none, some, List, [], ◌∷◌,
}
use replay_kit.Common.Action.{Action, lift, ask, write, pure, ◌>>=◌, ◌>>◌}
use replay_kit.Common.Eq.{◌==◌, nat_eq, string_eq}
use replay_kit.Common.Int.{ℤ, pos, negsuc, as_i64}
use replay_kit.Common.Result.{ok, map_ok}
use replay_kit.Common.Sort.{sort_by_key}
use replay_kit.Common.Tests.{if◌then◌else◌}
use replay_kit.Model.Enums.{IdKind, ArtifactType}
use replay_kit.Model.Records.{RunId, SpanId, ArtifactId, ArtifactRecord, SnapshotRecord}
use replay_kit.Model.Value.{Value, Document, lookup_field, insert_field}
use replay_kit.Storage.Artifacts.{store_artifact_with_content}
use replay_kit.Storage.Blob.{Bytes, Env}
use replay_kit.Storage.Error.{StorageError, Checked}
use replay_kit.Storage.Records.{insert_snapshot, list_snapshots}
use replay_kit.Storage.Runs.{allocate_id}
use replay_kit.Storage.State.{MemoryState, InMemoryStorage}
use replay_kit.Workspace.Archive.{
  WorkspaceArchive, WorkspaceEntry, Node, CaptureOptions, capture_with, to_bytes, file_count,
  total_bytes,
}

pub data WorkspacePhase : Type 0 where
  before after end : WorkspacePhase

unfoldable pub label : WorkspacePhase → String
label before = "before"
label after = "after"
label end = "end"

unfoldable pub parse : String → Option WorkspacePhase
parse text =
    if text == "before"
    then some before
    else if text == "after"
    then some after
    else if text == "end"
    then some end
    else none

abbrev pub workspace_snapshot_kind : String
workspace_snapshot_kind = "workspace"

abbrev pub workspace_archive_mime : String
workspace_archive_mime = "application/x-replaykit-workspace"

pub record WorkspacePoint : Type 0 where
  pub snapshot : SnapshotRecord
  pub phase : WorkspacePhase
  pub ordinal : ℤ
  pub span_id : Option SpanId

abbrev pub phase_of : Option Value → Option WorkspacePhase
unfolding parse
phase_of (some (Value.text text)) = parse text
phase_of _ = none

abbrev pub ordinal_of : Option Value → Option ℤ
ordinal_of (some (Value.int n)) = some n
ordinal_of _ = none

abbrev pub make_point : SnapshotRecord → Option WorkspacePhase → Option ℤ → Option WorkspacePoint
make_point snapshot none ordinal = none
make_point snapshot (some phase) none = none
make_point snapshot (some phase) (some ordinal) =
    some
      (record { snapshot = snapshot; phase = phase; ordinal = ordinal; span_id = snapshot.span_id })

-- A snapshot as a point, where it is one of a workspace and its summary says at which position.
unfoldable pub point_of : SnapshotRecord → Option WorkspacePoint
unfolding lookup_field phase_of
point_of snapshot =
    if snapshot.kind == workspace_snapshot_kind
    then make_point snapshot (phase_of (lookup_field "phase" snapshot.summary))
        (ordinal_of (lookup_field "ordinal" snapshot.summary))
    else none

unfoldable pub points_of : List SnapshotRecord → List WorkspacePoint
points_of [] = []
points_of (snapshot ∷ snapshots) = elim (point_of snapshot) [
  | none ↦ points_of snapshots
  | some point ↦ point ∷ points_of snapshots
]

-- A natural number in the order of the `i64` numbers.
abbrev pub order_key : ℤ → ℕ
order_key (pos n) = 2 ^ 63 + n
order_key (negsuc n) = 2 ^ 63 - 1 - n

unfoldable pub list_workspace_points : RunId → MemoryState → List WorkspacePoint
list_workspace_points run_id s =
    sort_by_key (λ point. order_key point.ordinal) (points_of (list_snapshots run_id s))

-- `n + 1`, in an `i64` that wraps round.
unfoldable pub next_ordinal : ℤ → ℤ
next_ordinal (pos n) = if n == 2 ^ 63 - 1 then negsuc n else pos (n + 1)
next_ordinal (negsuc zero) = pos 0
next_ordinal (negsuc (suc n)) = negsuc n

unfoldable pub last_ordinal : List WorkspacePoint → Option ℤ
last_ordinal [] = none
last_ordinal (point ∷ []) = some point.ordinal
last_ordinal (point ∷ other ∷ points) = last_ordinal (other ∷ points)

-- `.last().map(|point| point.ordinal + 1).unwrap_or(0)`.
unfoldable pub following : Option ℤ → ℤ
unfolding next_ordinal
following none = pos 0
following (some n) = next_ordinal n

unfoldable pub point_summary : WorkspacePhase → ℤ → WorkspaceArchive → String → Document
unfolding label insert_field
point_summary phase ordinal archive root_label =
    let position = insert_field "root" (Value.text root_label) (
      insert_field "ordinal" (Value.int ordinal)
        (insert_field "phase" (Value.text (label phase)) Document.empty)) in
    insert_field "bytes" (Value.int (as_i64 (total_bytes archive)))
      (insert_field "files" (Value.int (as_i64 (file_count archive))) position)

abbrev pub Service : Type 0 → Type 0
Service = Action InMemoryStorage StorageError

abbrev pub on_state :
    (MemoryState → Checked MemoryState) → InMemoryStorage → Checked InMemoryStorage
on_state f st = map_ok (λ s. record st { state = s }) (f st.state)

abbrev pub new_id : IdKind → Service String
new_id kind st = let (id, s) = allocate_id kind st.state in (ok id, record st { state = s })

-- The artifact record of an archive, before the content is stored.
abbrev pub archive_artifact : RunId → Option SpanId → ArtifactId → ℕ → Document → ℕ → ArtifactRecord
archive_artifact run_id span_id artifact_id byte_len summary created_at = record {
  artifact_id = artifact_id;
  run_id = run_id;
  span_id = span_id;
  artifact_type = ArtifactType.state_snapshot;
  mime = workspace_archive_mime;
  sha256 = "";
  byte_len = byte_len;
  blob_path = "";
  summary = summary;
  redaction = Document.empty;
  created_at = created_at;
}

-- The bytes of an archive are those that `to_bytes` of the program makes with the `serde_json`
-- package, which is a parameter.
module _ (env : Env) (manifest_json : List WorkspaceEntry → Bytes) where
  unfoldable pub record_workspace_point :
      RunId
      → Option SpanId
      → WorkspacePhase
      → ℤ
      → WorkspaceArchive
      → String
      → ℕ
      → Service SnapshotRecord
  record_workspace_point run_id span_id phase ordinal archive root_label created_at = do
    let bytes = to_bytes manifest_json archive
    let summary = point_summary phase ordinal archive root_label
    artifact_id ← new_id IdKind.artifact
    artifact ←
        store_artifact_with_content env
          (archive_artifact run_id span_id artifact_id (length bytes) summary created_at) bytes
    snapshot_id ← new_id IdKind.snapshot
    let snapshot : SnapshotRecord = record {
      snapshot_id = snapshot_id;
      run_id = run_id;
      span_id = span_id;
      kind = workspace_snapshot_kind;
      artifact_id = artifact.artifact_id;
      summary = summary;
      created_at = created_at;
    }
    write (on_state (insert_snapshot env snapshot))
    pure snapshot

  -- What the function finds at the root is an argument, as it may change between two calls.
  unfoldable pub capture_workspace_point :
      RunId
      → Option SpanId
      → WorkspacePhase
      → String
      → Node
      → CaptureOptions
      → ℕ
      → Service SnapshotRecord
  capture_workspace_point run_id span_id phase root found options created_at = do
    archive ← lift (capture_with env options.exclude options.max_bytes root found)
    points ← ask (λ st. list_workspace_points run_id st.state)
    record_workspace_point run_id span_id phase (following (last_ordinal points)) archive root
        created_at
