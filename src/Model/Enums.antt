-- ===== src/Model/Enums.antt =====
-- The enumerations of crates/core-model/src/lib.rs, each with its `PartialEq`.
use replay_kit.Common.{ℕ, String, Bool}
use replay_kit.Common.Eq.{Eq, Ord, eq_of_discrete}
use replay_kit.Common.Tests.{ltb}

pub data SpanKind : Type 0 where
  run planner_step llm_call tool_call shell_command file_read file_write browser_action : SpanKind
  retrieval memory_lookup human_input guardrail_check subgraph adapter_internal : SpanKind

pub data EdgeKind : Type 0 where
  control_parent data_depends_on retry_of replaces branch_of : EdgeKind
  materializes_snapshot reads_artifact writes_artifact : EdgeKind

pub data ReplayPolicy : Type 0 where
  record_only rerunnable_supported cacheable_if_fingerprint_matches pure_reusable : ReplayPolicy

pub data RunStatus : Type 0 where
  running completed failed interrupted canceled blocked imported : RunStatus

pub data SpanStatus : Type 0 where
  running completed failed skipped blocked canceled : SpanStatus

pub data PatchType : Type 0 where
  prompt_edit tool_output_override env_var_override model_config_edit : PatchType
  retrieval_context_override snapshot_override command_override : PatchType
  file_content_override : PatchType

pub data ReplayMode : Type 0 where
  recorded forked : ReplayMode

pub data ReplayJobStatus : Type 0 where
  queued validating running blocked failed completed canceled : ReplayJobStatus

pub data DirtyReason : Type 0 where
  patched_input fingerprint_changed upstream_output_changed executor_version_changed : DirtyReason
  policy_forced_rerun missing_reusable_artifact dependency_unknown : DirtyReason

pub data FailureClass : Type 0 where
  model_failure tool_failure shell_failure file_system_failure retrieval_failure : FailureClass
  browser_failure guardrail_failure human_dependency replay_unsupported : FailureClass
  integrity_failure unknown : FailureClass

pub data ArtifactType : Type 0 where
  prompt model_request model_response tool_input tool_output shell_stdout : ArtifactType
  shell_stderr file_diff file_blob dom_snapshot screenshot state_snapshot : ArtifactType
  retrieval_result memory_state human_message debug_log patch_manifest : ArtifactType

pub data IdKind : Type 0 where
  run trace span event artifact snapshot edge branch replay_job diff : IdKind

unfoldable pub SpanKind-discrete : Discrete SpanKind
SpanKind-discrete = hlevel

unfoldable pub EdgeKind-discrete : Discrete EdgeKind
EdgeKind-discrete = hlevel

unfoldable pub RunStatus-discrete : Discrete RunStatus
RunStatus-discrete = hlevel

unfoldable pub SpanStatus-discrete : Discrete SpanStatus
SpanStatus-discrete = hlevel

unfoldable pub PatchType-discrete : Discrete PatchType
PatchType-discrete = hlevel

unfoldable pub DirtyReason-discrete : Discrete DirtyReason
DirtyReason-discrete = hlevel

unfoldable pub ArtifactType-discrete : Discrete ArtifactType
ArtifactType-discrete = hlevel

unfoldable pub IdKind-discrete : Discrete IdKind
IdKind-discrete = hlevel

instance abbrev pub span_kind_eq : Eq SpanKind
span_kind_eq = eq_of_discrete SpanKind-discrete

instance abbrev pub edge_kind_eq : Eq EdgeKind
edge_kind_eq = eq_of_discrete EdgeKind-discrete

instance abbrev pub run_status_eq : Eq RunStatus
run_status_eq = eq_of_discrete RunStatus-discrete

instance abbrev pub span_status_eq : Eq SpanStatus
span_status_eq = eq_of_discrete SpanStatus-discrete

instance abbrev pub patch_type_eq : Eq PatchType
patch_type_eq = eq_of_discrete PatchType-discrete

instance abbrev pub dirty_reason_eq : Eq DirtyReason
dirty_reason_eq = eq_of_discrete DirtyReason-discrete

instance abbrev pub artifact_type_eq : Eq ArtifactType
artifact_type_eq = eq_of_discrete ArtifactType-discrete

instance abbrev pub id_kind_eq : Eq IdKind
id_kind_eq = eq_of_discrete IdKind-discrete

-- The place of a kind in the declaration, which `derive(Ord)` compares by.
id_kind_rank : IdKind → ℕ
id_kind_rank IdKind.run = 0
id_kind_rank IdKind.trace = 1
id_kind_rank IdKind.span = 2
id_kind_rank IdKind.event = 3
id_kind_rank IdKind.artifact = 4
id_kind_rank IdKind.snapshot = 5
id_kind_rank IdKind.edge = 6
id_kind_rank IdKind.branch = 7
id_kind_rank IdKind.replay_job = 8
id_kind_rank IdKind.diff = 9

unfoldable pub id_kind_lt : IdKind → IdKind → Bool
unfolding id_kind_rank
id_kind_lt a b = ltb (id_kind_rank a) (id_kind_rank b)

instance abbrev pub id_kind_ord : Ord IdKind
id_kind_ord = record { lt = id_kind_lt }

-- `IdKind::prefix`.
unfoldable pub prefix : IdKind → String
prefix IdKind.run = "run"
prefix IdKind.trace = "trace"
prefix IdKind.span = "span"
prefix IdKind.event = "event"
prefix IdKind.artifact = "artifact"
prefix IdKind.snapshot = "snapshot"
prefix IdKind.edge = "edge"
prefix IdKind.branch = "branch"
prefix IdKind.replay_job = "job"
prefix IdKind.diff = "diff"
