-- ===== src/Replay/Rules.antt =====
-- The rules of a replay: which patches apply to which spans, what a span is before it is run again,
-- and the status of a run after it.
use replay_kit.Common.{String, Bool, true, false, ◌&&◌, Option, none, some, List, [], ◌∷◌, any}
use replay_kit.Common.Eq.{◌==◌, string_eq, negate}
use replay_kit.Common.Map.{is_some}
use replay_kit.Common.Result.{Result, ok, err, map_ok}
use replay_kit.Common.Tests.{if◌then◌else◌}
use replay_kit.Replay.KeyValues.{InputError}
use replay_kit.Model.Enums.{
  SpanKind, SpanStatus, RunStatus, PatchType, span_kind_eq, span_status_eq,
}
use replay_kit.Model.Records.{RunId, SpanId, ArtifactId, SpanRecord, BranchRequest, no_cost}

unfoldable pub is_container : SpanKind → Bool
is_container SpanKind.run = true
is_container SpanKind.planner_step = true
is_container SpanKind.subgraph = true
is_container _ = false

-- The errors of this part: `ReplayError::InvalidPatch`, by the message's name and arguments.
pub data PatchError : Type 0 where
  unsupported : PatchType → SpanKind → PatchError
  not_attached : ArtifactId → PatchError
  no_spans : RunId → PatchError
  no_fork_span : SpanId → RunId → PatchError
  invalid_replacement : PatchType → InputError → PatchError
  no_text : InputError → PatchError
  no_workspace_of : String → PatchError

unfoldable pub patch_supported : PatchType → SpanKind → Bool
patch_supported PatchType.prompt_edit SpanKind.llm_call = true
patch_supported PatchType.model_config_edit SpanKind.llm_call = true
patch_supported PatchType.tool_output_override SpanKind.tool_call = true
patch_supported PatchType.retrieval_context_override SpanKind.retrieval = true
patch_supported PatchType.command_override SpanKind.shell_command = true
patch_supported PatchType.command_override SpanKind.tool_call = true
patch_supported PatchType.file_content_override SpanKind.file_write = true
patch_supported PatchType.file_content_override SpanKind.file_read = true
patch_supported PatchType.env_var_override _ = true
patch_supported PatchType.snapshot_override _ = true
patch_supported _ _ = false

pub data PatchDisposition : Type 0 where
  satisfies_span requires_execution : PatchDisposition

unfoldable pub patch_disposition : PatchType → SpanKind → PatchDisposition
patch_disposition PatchType.tool_output_override _ = satisfies_span
patch_disposition PatchType.retrieval_context_override _ = satisfies_span
patch_disposition PatchType.file_content_override SpanKind.file_read = satisfies_span
patch_disposition _ _ = requires_execution

unfoldable pub validate_patch_target : SpanRecord → BranchRequest → Result PatchError (Unit {0})
unfolding patch_supported
validate_patch_target span request =
    let patch_type = request.patch_manifest.patch_type in
    if patch_supported patch_type span.kind then ok tt else err (unsupported patch_type span.kind)

unfoldable pub reset_span_for_replay : SpanRecord → SpanRecord
reset_span_for_replay span = record span {
  status = SpanStatus.running;
  ended_at = none;
  output_artifact_ids = [];
  snapshot_id = none;
  output_fingerprint = none;
  error_code = none;
  error_summary = none;
  cost = no_cost;
}

-- The first place of the old id takes the new one.
unfoldable pub replace_artifact_id :
    List ArtifactId → ArtifactId → ArtifactId → Result PatchError (List ArtifactId)
replace_artifact_id [] old new = err (not_attached old)
replace_artifact_id (id ∷ ids) old new =
    let rest = replace_artifact_id ids old new in
    if id == old then ok (new ∷ ids) else map_ok (λ l. id ∷ l) rest

-- The root of a run: its first span that has no parent and is of kind `Run`.
unfoldable pub find_root : List SpanRecord → Option SpanRecord
find_root [] = none
find_root (span ∷ spans) =
    let rest = find_root spans in
    if negate (is_some span.parent_span_id) && span.kind == SpanKind.run then some span else rest

unfoldable pub root_status : SpanStatus → RunStatus
root_status SpanStatus.completed = RunStatus.completed
root_status SpanStatus.canceled = RunStatus.canceled
root_status _ = RunStatus.failed

abbrev pub is_blocked : SpanRecord → Bool
is_blocked span = span.status == SpanStatus.blocked

abbrev pub is_failed : SpanRecord → Bool
is_failed span = span.status == SpanStatus.failed

-- The status where no span is blocked, by the root.
unfoldable pub unblocked_status : List SpanRecord → Option SpanRecord → RunStatus
unfolding root_status
unblocked_status spans (some root) = root_status root.status
unblocked_status spans none = if any is_failed spans then RunStatus.failed else RunStatus.completed

unfoldable pub derive_run_status : List SpanRecord → RunStatus
unfolding unblocked_status find_root
derive_run_status spans =
    if any is_blocked spans then RunStatus.blocked else unblocked_status spans (find_root spans)
