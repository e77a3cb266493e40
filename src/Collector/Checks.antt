-- ===== src/Collector/Checks.antt =====
-- The lookups and checks that the methods of the collector share.
use replay_kit.Common.{ℕ, String, Bool, Option, none, some, List}
use replay_kit.Common.Action.{Action, fail, pure, ◌>>=◌}
use replay_kit.Common.Eq.{string_eq}
use replay_kit.Common.Result.{Result, ok, err, guard, map_err}
use replay_kit.Collector.Requests.{
  CollectorError, Refusal, no_run, no_span, no_snapshot, belongs_elsewhere, unattached, storage,
  invalid_input,
}
use replay_kit.Model.Records.{
  RunId, SpanId, ArtifactId, SnapshotId, RunRecord, ArtifactRecord, SnapshotRecord,
}
use replay_kit.Storage.Blob.{Env, Bytes}
use replay_kit.Storage.Error.{StorageError, Checked}
use replay_kit.Storage.Error as Error
use replay_kit.Storage.Records.{get_snapshot}
use replay_kit.Storage.State.{MemoryState, InMemoryStorage, get_run, get_span, get_artifact}
use replay_kit.Workspace.Archive.{WorkspaceEntry, Node, CaptureOptions}
use replay_kit.Workspace.Points.{Service, WorkspacePhase, on_state, capture_workspace_point}

-- What the collector does not implement, as it is during one call: the digest and the metadata of
-- paths, the text of a manifest, `canonicalize` with whether the result is a directory, and what
-- stands at a path.
pub record Host : Type 0 where
  pub env : Env
  pub manifest_json : List WorkspaceEntry → Bytes
  pub canonicalize : String → Option (String × Bool)
  pub node_at : String → Node

abbrev pub Recording : Type 0 → Type 0
Recording = Action InMemoryStorage CollectorError

-- A call of the storage, with `?`.
abbrev pub via : {A : Type 0} → Service A → Recording A
via m st = let (r, t) = m st in (map_err storage r, t)

abbrev pub reading : {A : Type 0} → (MemoryState → Checked A) → Recording A
reading f st = (map_err storage (f st.state), st)

abbrev pub writing_result :
    Checked InMemoryStorage → InMemoryStorage → Result CollectorError (Unit {0}) × InMemoryStorage
writing_result (ok t) st = (ok tt, t)
writing_result (err e) st = (err (storage e), st)

abbrev pub writing : (MemoryState → Checked MemoryState) → Recording (Unit {0})
writing f st = writing_result (on_state f st) st

-- A call that returns a value and a new state, or fails.
abbrev pub updating_result :
    {A : Type 0}
    → Checked (A × MemoryState)
    → InMemoryStorage
    → Result CollectorError A × InMemoryStorage
updating_result (ok (a, s)) st = (ok a, record st { state = s })
updating_result (err e) st = (err (storage e), st)

abbrev pub updating : {A : Type 0} → (MemoryState → Checked (A × MemoryState)) → Recording A
updating f st = updating_result (f st.state) st

abbrev pub refuse_unless : Bool → Refusal → Recording (Unit {0})
refuse_unless test refusal st = (guard test (invalid_input refusal), st)

-- `not_found_as_invalid_input`.
unfoldable pub not_found_as_invalid_input : StorageError → Refusal → CollectorError
not_found_as_invalid_input (Error.not_found message) refusal = invalid_input refusal
not_found_as_invalid_input e refusal = storage e

abbrev pub looking : {A : Type 0} → (MemoryState → Checked A) → Refusal → Recording A
looking f refusal st = (map_err (λ e. not_found_as_invalid_input e refusal) (f st.state), st)

unfoldable pub ensure_run_exists : RunId → Recording (Unit {0})
ensure_run_exists run_id = looking (get_run run_id) (no_run run_id) >>= λ _. pure tt

unfoldable pub ensure_span_exists : RunId → SpanId → Recording (Unit {0})
ensure_span_exists run_id span_id =
    looking (get_span run_id span_id) (no_span span_id run_id) >>= λ _. pure tt

unfoldable pub ensure_optional_span : RunId → Option SpanId → Recording (Unit {0})
unfolding ensure_span_exists
ensure_optional_span run_id none = pure tt
ensure_optional_span run_id (some span_id) = ensure_span_exists run_id span_id

-- `ensure_artifact_attached_to_span` and `ensure_snapshot_attached_to_span`, which differ in the
-- label of the message.
unfoldable pub ensure_attached : Option SpanId → String → SpanId → String → Recording (Unit {0})
ensure_attached none id span_id label = fail (invalid_input (unattached label id span_id))
ensure_attached (some existing) id span_id label =
    refuse_unless (string_eq.equal existing span_id) (belongs_elsewhere label id existing span_id)

module _ (host : Host) where
  unfoldable pub lookup_artifact : RunId → ArtifactId → Refusal → Recording ArtifactRecord
  lookup_artifact run_id artifact_id = looking (get_artifact host.env run_id artifact_id)

  unfoldable pub lookup_snapshot : RunId → SnapshotId → Recording SnapshotRecord
  lookup_snapshot run_id snapshot_id =
      looking (get_snapshot run_id snapshot_id) (no_snapshot snapshot_id run_id)

  -- `capture_workspace`: an error is logged, and what was done before it stays.
  unfoldable pub capture_root :
      CaptureOptions
      → RunRecord
      → Option SpanId
      → WorkspacePhase
      → ℕ
      → Option String
      → Recording (Unit {0})
  capture_root options run span_id phase at none st = (ok tt, st)
  capture_root options run span_id phase at (some root) st =
      let found = host.node_at root in
      (
        ok tt,
        (capture_workspace_point host.env host.manifest_json run.run_id span_id phase root found
            options at st).1,
      )

  unfoldable pub capture_workspace :
      CaptureOptions → RunRecord → Option SpanId → WorkspacePhase → ℕ → Recording (Unit {0})
  unfolding capture_root
  capture_workspace options run span_id phase at =
      capture_root options run span_id phase at run.workspace_root
