-- ===== src/Examples/Summing.antt =====
-- Summaries of the run, and a capture of a workspace.
use Prim.Native.Nat.{min}
use replay_kit.Common.{◌&&◌, true, none, some, [], ◌∷◌, length, ◌≡◌, refl, ◌↔◌, inl, inr, arith}
use replay_kit.Common.Eq.{◌==◌, nat_eq, string_eq, string_lt}
use replay_kit.Common.Result.{ok}
use replay_kit.Common.Tests.{if◌then◌else◌}
use replay_kit.Examples.Fixtures.{some_env, some_spans, failed_span}
use replay_kit.Model.Enums.{RunStatus}
use replay_kit.Model.Records.{SpanRecord}
use replay_kit.Model.Summary.{
  from_run_state, u64_max, run_status_implies_error, span_contributes_error, is_failed_status,
}
use replay_kit.Model.Summary.Counts.{
  total_tokens, total_micros, failed_spans, tokens-from_run_state, errors-from_run_state,
  failure_class-errors,
}
use replay_kit.Model.Summary.Failure.{Decides, failure_class_decided}
use replay_kit.Workspace.Archive.{
  WorkspaceArchive, insert_child, EntryKind, Node, nil, child, capture_with, sort_children,
  sort_node, walk_node, walk_children, push_file,
}
use replay_kit.Workspace.Captured.{IsSound, capture_with-IsSound}

tokens-from_run_state_example :
    ((from_run_state RunStatus.failed some_spans [] none).token_count
      ≡ min (total_tokens some_spans) u64_max)
    × ((from_run_state RunStatus.failed some_spans [] none).estimated_cost_micros
        ≡ min (total_micros some_spans) u64_max)
tokens-from_run_state_example = tokens-from_run_state RunStatus.failed some_spans [] none

errors-from_run_state_example : (from_run_state RunStatus.failed some_spans [] none).error_count ≡ (
    if length (failed_spans some_spans) == 0 && run_status_implies_error RunStatus.failed
    then 1
    else length (failed_spans some_spans))
errors-from_run_state_example =
    errors-from_run_state RunStatus.failed some_spans [] none (omega arith)

failure_class-errors_example :
    ((from_run_state RunStatus.failed some_spans [] none).failure_class ≡ none)
    ↔ ((from_run_state RunStatus.failed some_spans [] none).error_count ≡ 0)
failure_class-errors_example = failure_class-errors RunStatus.failed some_spans [] none

abbrev tree : Node
tree =
    Node.dir 493 (child "notes" (Node.file 420 (1 ∷ 2 ∷ [])) (child "bin" (Node.dir 493 nil) nil))

abbrev archive : WorkspaceArchive
archive = record {
  entries =
      record {
        path = "bin";
        kind = EntryKind.dir;
        mode = 493;
        sha256 = none;
        len = 0;
        offset = 0;
        target = none;
      }
      ∷ record {
        path = "notes";
        kind = EntryKind.file;
        mode = 420;
        sha256 = some "two";
        len = 2;
        offset = 0;
        target = none;
      }
      ∷ [];
  data_bytes = 1 ∷ 2 ∷ [];
}

captures : capture_with some_env [] 100 "/work" tree ≡ ok archive
unfolding capture_with insert_child string_lt sort_children sort_node walk_node walk_children
    push_file
captures = refl

capture_with-IsSound_example : IsSound some_env 100 archive
capture_with-IsSound_example = capture_with-IsSound some_env [] 100 "/work" tree archive captures

fails : span_contributes_error failed_span ≡ true
unfolding span_contributes_error is_failed_status
fails = refl

failure_class_decided_example : (span : SpanRecord) × Decides RunStatus.failed some_spans span
failure_class_decided_example =
    failure_class_decided RunStatus.failed some_spans failed_span (inr (inl refl)) fails
