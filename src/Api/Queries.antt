-- ===== src/Api/Queries.antt =====
-- The queries of `ReplayKitService` in crates/api/src/lib.rs.
use replay_kit.Common.{Bool, ◌||◌, Option, none, some, List, ◌++◌, keep, member}
use replay_kit.Common.Eq.{◌==◌, string_eq, option_eq}
use replay_kit.Common.Result.{map_ok, ◌>>=◌}
use replay_kit.Api.Retries.{FailureForensicsView, forensics_of}
use replay_kit.Api.Tree.{RunTreeNodes, run_tree}
use replay_kit.Model.Records.{
  RunId, SpanId, SpanRecord, ArtifactRecord, SpanEdgeRecord, BranchRecord,
}
use replay_kit.Storage.Artifacts.{list_artifacts}
use replay_kit.Storage.Blob.{Env}
use replay_kit.Storage.Branches.{list_branches}
use replay_kit.Storage.Error.{Checked}
use replay_kit.Storage.Records.{list_spans}
use replay_kit.Storage.State.{MemoryState, get_span, get_run, edges_of}

abbrev pub is_of_span : SpanRecord → SpanId → ArtifactRecord → Bool
is_of_span span span_id artifact =
    member artifact.artifact_id (span.input_artifact_ids ++ span.output_artifact_ids)
    || artifact.span_id == some span_id

unfoldable pub span_artifacts : Env → RunId → SpanId → MemoryState → Checked (List ArtifactRecord)
span_artifacts env run_id span_id s = get_span run_id span_id s >>= λ span.
    map_ok (keep (is_of_span span span_id)) (list_artifacts env run_id s)

unfoldable pub span_dependencies : RunId → SpanId → MemoryState → List SpanEdgeRecord
span_dependencies run_id span_id s =
    keep (λ edge. edge.from_span_id == span_id || edge.to_span_id == span_id) (edges_of s run_id)

unfoldable pub list_run_branches : RunId → MemoryState → List BranchRecord
list_run_branches run_id s =
    keep (λ branch. branch.source_run_id == run_id || branch.target_run_id == run_id)
      (list_branches s)

abbrev pub forensics_in : Option RunTreeNodes → RunId → MemoryState → Option FailureForensicsView
forensics_in none run_id s = none
forensics_in (some tree) run_id s =
    forensics_of run_id (list_spans run_id s) (edges_of s run_id) tree

-- No answer stands for a walk that does not end.
unfoldable pub run_forensics : RunId → MemoryState → Checked (Option FailureForensicsView)
run_forensics run_id s =
    map_ok (λ run. forensics_in (run_tree run_id s) run.run_id s) (get_run run_id s)
