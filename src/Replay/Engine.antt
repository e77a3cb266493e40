-- ===== src/Replay/Engine.antt =====
-- The types of crates/replay-engine/src/lib.rs that planning and execution share, with what the engine
-- does not implement as parameters, and what it looks up for one span.
use replay_kit.Common.{ℕ, String, Bool, false, Option, none, List, []}
use replay_kit.Common.Action.{Action}
use replay_kit.Common.Map.{Map}
use replay_kit.Common.Result.{Result, map_err}
use replay_kit.Model.Enums.{SpanStatus, ArtifactType}
use replay_kit.Model.Records.{RunId, SpanId, SpanRecord, ArtifactRecord, CostMetrics}
use replay_kit.Model.Value.{Value, Document}
use replay_kit.Replay.KeyValues.{InputError, Json}
use replay_kit.Replay.Rules.{PatchError}
use replay_kit.Replay.Sandbox.{ReplayWorkspace}
use replay_kit.Storage.Blob.{Env, Bytes}
use replay_kit.Storage.Error.{StorageError, Checked}
use replay_kit.Storage.State.{MemoryState, InMemoryStorage}
use replay_kit.Workspace.Archive.{WorkspaceArchive, WorkspaceEntry, Node}
use replay_kit.Workspace.Files.{Files, FileAction}
use replay_kit.Workspace.Points.{Service}

pub data ReplayError : Type 0 where
  storage : StorageError → ReplayError
  invalid_patch : PatchError → ReplayError
  blocked : String → ReplayError
  -- A panic: an index that is out of range.
  out_of_range : ReplayError
  -- A walk over the parents of spans that does not end, as they go round in a circle.
  endless : ReplayError

pub record RecordedOutput : Type 0 where
  pub artifact : ArtifactRecord
  pub content : Option Bytes

pub record RecordedSpan : Type 0 where
  pub span : SpanRecord
  pub outputs : List RecordedOutput

pub record ChildOutcome : Type 0 where
  pub recorded : SpanRecord
  pub replayed : SpanRecord

pub record ReplayExecutionContext : Type 0 where
  pub source_run_id : RunId
  pub target_run_id : RunId
  pub fork_span_id : SpanId
  pub workspace : Option ReplayWorkspace
  pub env : Map String String
  pub recorded : Option RecordedSpan
  pub children : List ChildOutcome
  pub planning : Bool

unfoldable pub new_context : RunId → RunId → SpanId → ReplayExecutionContext
new_context source_run_id target_run_id fork_span_id = record {
  source_run_id = source_run_id;
  target_run_id = target_run_id;
  fork_span_id = fork_span_id;
  workspace = none;
  env = [];
  recorded = none;
  children = [];
  planning = false;
}

pub record ProducedArtifact : Type 0 where
  pub artifact_type : ArtifactType
  pub mime : String
  pub sha256 : String
  pub byte_len : ℕ
  pub blob_path : String
  pub content : Option Bytes
  pub summary : Document
  pub redaction : Document
  pub created_at : ℕ

pub record ProducedSnapshot : Type 0 where
  pub kind : String
  pub artifact : ProducedArtifact
  pub summary : Document
  pub created_at : ℕ

pub record ExecutionResult : Type 0 where
  pub status : SpanStatus
  pub output_artifacts : List ProducedArtifact
  pub output_fingerprint : Option String
  pub snapshot : Option ProducedSnapshot
  pub error_summary : Option String
  pub cost : CostMetrics

-- The registry of executors, whose work is on the file system and on services: `check` and `execute`.
-- `W` are the states of the world outside of the store.
pub record ExecutorRegistry (W : Type 0) : Type 0 where
  pub check : SpanRecord → ReplayExecutionContext → W → Result String (Unit {0})
  pub execute : SpanRecord → ReplayExecutionContext → W → Result ReplayError ExecutionResult × W

-- What the engine uses of other packages and of the host: the digest, the JSON of manifests and of
-- texts, `from_utf8_lossy`, the texts of messages and of `{:?}`, the file system with what stands at
-- a path, and the name of a new sandbox, which is made of the process id and the time.
pub record Machine (W : Type 0) : Type 0 where
  pub env : Env
  pub manifest_json : List WorkspaceEntry → Bytes
  pub read_manifest : Bytes → Option (List WorkspaceEntry)
  pub parse_json : String → Option Json
  pub from_utf8_lossy : Bytes → String
  pub debug_value : Value → String
  pub input_message : InputError → String
  pub storage_message : StorageError → String
  pub files : Files W
  pub node_at : String → W → Node
  pub sandbox_dir : RunId → W → String

-- The state of an engine at work: the store, the world, and the timeline's variables.
pub record Session (W : Type 0) : Type 0 where
  pub store : InMemoryStorage
  pub world : W
  pub archives : List (Option WorkspaceArchive)
  pub cursor : Option ℕ

abbrev pub Replaying : Type 0 → Type 0 → Type 0
Replaying W = Action (Session W) ReplayError

module _ {W : Type 0} where
  -- A call of the storage, with `?`.
  abbrev pub calls : {A : Type 0} → Service A → Replaying W A
  calls m s = let (r, st) = m s.store in (map_err storage r, record s { store = st })

  -- A read of the storage.
  abbrev pub reads : {A : Type 0} → (InMemoryStorage → Checked A) → Replaying W A
  reads f s = (map_err storage (f s.store), s)

  abbrev pub looks : {A : Type 0} → (MemoryState → Checked A) → Replaying W A
  looks f s = (map_err storage (f s.store.state), s)

  -- A call of the file system.
  abbrev pub on_files : {A : Type 0} → FileAction W A → Replaying W A
  on_files m s = let (r, w) = m s.world in (map_err storage r, record s { world = w })
