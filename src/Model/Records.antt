-- ===== src/Model/Records.antt =====
-- The records of crates/core-model/src/lib.rs. The newtypes over `String` that name a record are
-- synonyms of `String`; `u64` and `usize` are numbers.
use replay_kit.Common.{ℕ, String, Option, none, List, []}
use replay_kit.Model.Enums.{
  SpanKind, EdgeKind, ReplayPolicy, RunStatus, SpanStatus, PatchType, ReplayMode, ReplayJobStatus,
  DirtyReason, FailureClass, ArtifactType,
}
use replay_kit.Model.Value.{Value, Document}

abbrev pub RunId : Type 0
RunId = String

abbrev pub TraceId : Type 0
TraceId = String

abbrev pub SpanId : Type 0
SpanId = String

abbrev pub EventId : Type 0
EventId = String

abbrev pub ArtifactId : Type 0
ArtifactId = String

abbrev pub SnapshotId : Type 0
SnapshotId = String

abbrev pub EdgeId : Type 0
EdgeId = String

abbrev pub BranchId : Type 0
BranchId = String

abbrev pub ReplayJobId : Type 0
ReplayJobId = String

abbrev pub DiffId : Type 0
DiffId = String

pub record HostMetadata : Type 0 where
  pub os : String
  pub arch : String
  pub hostname : Option String

pub record CostMetrics : Type 0 where
  pub input_tokens : ℕ
  pub output_tokens : ℕ
  pub estimated_cost_micros : ℕ

abbrev pub no_cost : CostMetrics
no_cost = record { input_tokens = 0; output_tokens = 0; estimated_cost_micros = 0 }

pub record RunSummary : Type 0 where
  pub span_count : ℕ
  pub artifact_count : ℕ
  pub error_count : ℕ
  pub token_count : ℕ
  pub estimated_cost_micros : ℕ
  pub final_output_preview : Option String
  pub failure_class : Option FailureClass

abbrev pub empty_summary : RunSummary
empty_summary = record {
  span_count = 0;
  artifact_count = 0;
  error_count = 0;
  token_count = 0;
  estimated_cost_micros = 0;
  final_output_preview = none;
  failure_class = none;
}

pub record RunRecord : Type 0 where
  pub run_id : RunId
  pub trace_id : TraceId
  pub source_run_id : Option RunId
  pub root_span_id : Option SpanId
  pub branch_id : Option BranchId
  pub title : String
  pub entrypoint : String
  pub adapter_name : String
  pub adapter_version : String
  pub status : RunStatus
  pub started_at : ℕ
  pub ended_at : Option ℕ
  pub git_sha : Option String
  pub environment_fingerprint : Option String
  pub host : HostMetadata
  pub labels : List String
  pub summary : RunSummary
  pub workspace_root : Option String

pub record SpanRecord : Type 0 where
  pub run_id : RunId
  pub span_id : SpanId
  pub trace_id : TraceId
  pub parent_span_id : Option SpanId
  pub sequence_no : ℕ
  pub kind : SpanKind
  pub name : String
  pub status : SpanStatus
  pub started_at : ℕ
  pub ended_at : Option ℕ
  pub replay_policy : ReplayPolicy
  pub executor_kind : Option String
  pub executor_version : Option String
  pub input_artifact_ids : List ArtifactId
  pub output_artifact_ids : List ArtifactId
  pub snapshot_id : Option SnapshotId
  pub input_fingerprint : Option String
  pub output_fingerprint : Option String
  pub environment_fingerprint : Option String
  pub attributes : Document
  pub error_code : Option String
  pub error_summary : Option String
  pub cost : CostMetrics

pub record EventRecord : Type 0 where
  pub event_id : EventId
  pub run_id : RunId
  pub span_id : SpanId
  pub sequence_no : ℕ
  pub timestamp : ℕ
  pub kind : String
  pub payload : Document

pub record ArtifactRecord : Type 0 where
  pub artifact_id : ArtifactId
  pub run_id : RunId
  pub span_id : Option SpanId
  pub artifact_type : ArtifactType
  pub mime : String
  pub sha256 : String
  pub byte_len : ℕ
  pub blob_path : String
  pub summary : Document
  pub redaction : Document
  pub created_at : ℕ

pub record SnapshotRecord : Type 0 where
  pub snapshot_id : SnapshotId
  pub run_id : RunId
  pub span_id : Option SpanId
  pub kind : String
  pub artifact_id : ArtifactId
  pub summary : Document
  pub created_at : ℕ

pub record SpanEdgeRecord : Type 0 where
  pub edge_id : EdgeId
  pub run_id : RunId
  pub from_span_id : SpanId
  pub to_span_id : SpanId
  pub kind : EdgeKind
  pub attributes : Document

pub record PatchManifest : Type 0 where
  pub patch_type : PatchType
  pub target_artifact_id : Option ArtifactId
  pub replacement : Value
  pub note : Option String
  pub created_at : ℕ

pub record BranchRecord : Type 0 where
  pub branch_id : BranchId
  pub source_run_id : RunId
  pub target_run_id : RunId
  pub fork_span_id : SpanId
  pub patch_manifest_artifact_id : ArtifactId
  pub created_at : ℕ
  pub created_by : Option String
  pub status : RunStatus

pub record ReplayJobRecord : Type 0 where
  pub replay_job_id : ReplayJobId
  pub source_run_id : RunId
  pub target_run_id : Option RunId
  pub mode : ReplayMode
  pub status : ReplayJobStatus
  pub created_at : ℕ
  pub started_at : Option ℕ
  pub ended_at : Option ℕ
  pub progress : Document
  pub error_summary : Option String

pub record DirtySpanRecord : Type 0 where
  pub span_id : SpanId
  pub reasons : List DirtyReason
  pub triggered_by : List SpanId

pub record RunDiffRecord : Type 0 where
  pub diff_id : DiffId
  pub source_run_id : RunId
  pub target_run_id : RunId
  pub first_divergent_span_id : Option SpanId
  pub changed_span_count : ℕ
  pub changed_artifact_count : ℕ
  pub source_status : RunStatus
  pub target_status : RunStatus
  pub summary : Document
  pub created_at : ℕ

pub record BranchRequest : Type 0 where
  pub source_run_id : RunId
  pub fork_span_id : SpanId
  pub patch_manifest : PatchManifest
  pub created_by : Option String

-- `RunRecord::new`.
unfoldable pub new_run : RunId → TraceId → String → String → String → String → ℕ → RunRecord
new_run run_id trace_id title entrypoint adapter_name adapter_version started_at = record {
  run_id = run_id;
  trace_id = trace_id;
  source_run_id = none;
  root_span_id = none;
  branch_id = none;
  title = title;
  entrypoint = entrypoint;
  adapter_name = adapter_name;
  adapter_version = adapter_version;
  status = RunStatus.running;
  started_at = started_at;
  ended_at = none;
  git_sha = none;
  environment_fingerprint = none;
  host = record { os = ""; arch = ""; hostname = none };
  labels = [];
  summary = empty_summary;
  workspace_root = none;
}
