-- ===== src/Collector/Requests.antt =====
-- The requests of the collector, and its errors.
use replay_kit.Common.{ℕ, String, Option, List}
use replay_kit.Model.Enums.{SpanKind, SpanStatus, EdgeKind, ReplayPolicy, ArtifactType}
use replay_kit.Model.Records.{SpanId, ArtifactId, SnapshotId, RunId, HostMetadata, CostMetrics}
use replay_kit.Model.Value.{Document}
use replay_kit.Storage.Blob.{Bytes}
use replay_kit.Storage.Error.{StorageError}

pub record BeginRun : Type 0 where
  pub title : String
  pub entrypoint : String
  pub adapter_name : String
  pub adapter_version : String
  pub started_at : ℕ
  pub git_sha : Option String
  pub environment_fingerprint : Option String
  pub host : HostMetadata
  pub labels : List String
  pub workspace_root : Option String

pub record SpanSpec : Type 0 where
  pub span_id : Option SpanId
  pub parent_span_id : Option SpanId
  pub kind : SpanKind
  pub name : String
  pub started_at : ℕ
  pub replay_policy : ReplayPolicy
  pub executor_kind : Option String
  pub executor_version : Option String
  pub input_artifact_ids : List ArtifactId
  pub input_fingerprint : Option String
  pub environment_fingerprint : Option String
  pub attributes : Document

pub record EndSpan : Type 0 where
  pub ended_at : ℕ
  pub status : SpanStatus
  pub output_artifact_ids : List ArtifactId
  pub snapshot_id : Option SnapshotId
  pub output_fingerprint : Option String
  pub error_code : Option String
  pub error_summary : Option String
  pub cost : CostMetrics

pub record EventSpec : Type 0 where
  pub timestamp : ℕ
  pub kind : String
  pub payload : Document

pub record ArtifactSpec : Type 0 where
  pub artifact_type : ArtifactType
  pub mime : String
  pub sha256 : String
  pub byte_len : ℕ
  pub blob_path : String
  pub summary : Document
  pub redaction : Document
  pub created_at : ℕ
  pub content : Option Bytes

pub record SnapshotSpec : Type 0 where
  pub kind : String
  pub artifact_id : ArtifactId
  pub summary : Document
  pub created_at : ℕ

pub record EdgeSpec : Type 0 where
  pub from_span_id : SpanId
  pub to_span_id : SpanId
  pub kind : EdgeKind
  pub attributes : Document

-- The messages, by their format strings' names and arguments.
pub data Refusal : Type 0 where
  unusable_root : String → Refusal
  root_not_a_directory : String → Refusal
  no_run : RunId → Refusal
  no_span : SpanId → RunId → Refusal
  no_input_artifact : ArtifactId → RunId → Refusal
  no_output_artifact : ArtifactId → RunId → Refusal
  no_snapshot_artifact : ArtifactId → RunId → Refusal
  no_snapshot : SnapshotId → RunId → Refusal
  span_exists : SpanId → RunId → Refusal
  already_ended : SpanId → RunId → Refusal
  span_ends_early : SpanId → RunId → Refusal
  run_ends_early : RunId → Refusal
  still_running : RunId → Refusal
  belongs_elsewhere : String → String → SpanId → SpanId → Refusal
  unattached : String → String → SpanId → Refusal

pub data CollectorError : Type 0 where
  storage : StorageError → CollectorError
  invalid_input : Refusal → CollectorError
