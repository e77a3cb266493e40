-- ===== src/Model/Summary.antt =====
-- `RunSummary::from_run_state` of crates/core-model/src/lib.rs, and what it calls.
pub mod Counts
pub mod Failure
use Prim.Native.Nat.{min}
use text.Mathlib.Text.{starts_with}
use replay_kit.Common.{
  ℕ, ◌+◌, ◌-◌, ◌^◌, String, Bool, true, false, ◌&&◌, ◌||◌, Option, none, some, List, [], ◌∷◌,
  length, keep,
}
use replay_kit.Common.Eq.{◌==◌, nat_eq}
use replay_kit.Common.Tests.{ltb, if◌then◌else◌}
use replay_kit.Model.Enums.{
  SpanKind, SpanStatus, RunStatus, FailureClass, span_status_eq, model_failure, tool_failure,
  shell_failure, file_system_failure, retrieval_failure, browser_failure, guardrail_failure,
  human_dependency, replay_unsupported, unknown,
}
use replay_kit.Model.Records.{SpanRecord, ArtifactRecord, RunSummary}

-- `u64::MAX`, and `u64::saturating_add`.
abbrev pub u64_max : ℕ
u64_max = 2 ^ 64 - 1

unfoldable pub saturating_add : ℕ → ℕ → ℕ
saturating_add a b = min (a + b) u64_max

unfoldable pub is_failed_status : SpanStatus → Bool
is_failed_status SpanStatus.failed = true
is_failed_status SpanStatus.blocked = true
is_failed_status SpanStatus.canceled = true
is_failed_status _ = false

unfoldable pub span_contributes_error : SpanRecord → Bool
unfolding is_failed_status
span_contributes_error span = is_failed_status span.status

unfoldable pub run_status_implies_error : RunStatus → Bool
run_status_implies_error RunStatus.failed = true
run_status_implies_error RunStatus.interrupted = true
run_status_implies_error RunStatus.canceled = true
run_status_implies_error RunStatus.blocked = true
run_status_implies_error _ = false

-- The second half of `classify_failure`: the class of a kind.
unfoldable pub kind_failure : SpanKind → FailureClass
kind_failure SpanKind.llm_call = model_failure
kind_failure SpanKind.tool_call = tool_failure
kind_failure SpanKind.shell_command = shell_failure
kind_failure SpanKind.file_read = file_system_failure
kind_failure SpanKind.file_write = file_system_failure
kind_failure SpanKind.browser_action = browser_failure
kind_failure SpanKind.retrieval = retrieval_failure
kind_failure SpanKind.memory_lookup = retrieval_failure
kind_failure SpanKind.human_input = human_dependency
kind_failure SpanKind.guardrail_check = guardrail_failure
kind_failure _ = unknown

-- `error_summary.is_some_and(|summary| summary.starts_with("replay blocked"))`.
unfoldable pub says_replay_blocked : Option String → Bool
says_replay_blocked none = false
says_replay_blocked (some summary) = starts_with summary "replay blocked"

unfoldable pub classify_failure : SpanRecord → FailureClass
unfolding kind_failure says_replay_blocked
classify_failure span =
    if span.status == SpanStatus.blocked && says_replay_blocked span.error_summary
    then replay_unsupported
    else kind_failure span.kind

unfoldable pub failure_specificity : FailureClass → ℕ
failure_specificity unknown = 0
failure_specificity replay_unsupported = 2
failure_specificity _ = 1

-- The key that `derived_failure_class` compares by.
abbrev pub specificity : SpanRecord → ℕ
specificity span = failure_specificity (classify_failure span)

-- The order of the pairs of specificity and sequence number.
unfoldable pub key_lt : SpanRecord → SpanRecord → Bool
key_lt a b =
    ltb (specificity a) (specificity b)
    || specificity a == specificity b && ltb a.sequence_no b.sequence_no

-- `max_by_key`: of several maxima the last.
unfoldable pub later : SpanRecord → SpanRecord → SpanRecord
later best x = if key_lt x best then best else x

unfoldable pub max_by_key : SpanRecord → List SpanRecord → SpanRecord
max_by_key best [] = best
max_by_key best (x ∷ xs) = max_by_key (later best x) xs

unfoldable pub last_max : List SpanRecord → Option SpanRecord
last_max [] = none
last_max (x ∷ xs) = some (max_by_key x xs)

unfoldable pub derived_failure_class : RunStatus → List SpanRecord → Option FailureClass
derived_failure_class run_status spans = elim (last_max (keep span_contributes_error spans)) [
  | none ↦ if run_status_implies_error run_status then some unknown else none
  | some span ↦ some (classify_failure span)
]

-- One round of the loop over the spans.
unfoldable pub add_span : RunSummary → SpanRecord → RunSummary
unfolding saturating_add span_contributes_error
add_span summary span = record summary {
  token_count =
      saturating_add summary.token_count
        (saturating_add span.cost.input_tokens span.cost.output_tokens);
  estimated_cost_micros =
      saturating_add summary.estimated_cost_micros span.cost.estimated_cost_micros;
  error_count =
      if span_contributes_error span
      then saturating_add summary.error_count 1
      else summary.error_count;
}

unfoldable pub add_spans : RunSummary → List SpanRecord → RunSummary
unfolding add_span
add_spans summary [] = summary
add_spans summary (span ∷ spans) = add_spans (add_span summary span) spans

-- The summary before the loop.
unfoldable pub start_summary : List SpanRecord → List ArtifactRecord → Option String → RunSummary
start_summary spans artifacts preview = record {
  span_count = length spans;
  artifact_count = length artifacts;
  error_count = 0;
  token_count = 0;
  estimated_cost_micros = 0;
  final_output_preview = preview;
  failure_class = none;
}

-- What follows the loop.
unfoldable pub finish_summary : RunStatus → List SpanRecord → RunSummary → RunSummary
finish_summary run_status spans counted =
    let classified = record counted { failure_class = derived_failure_class run_status spans } in
    if classified.error_count == 0 && run_status_implies_error run_status
    then record classified { error_count = 1 }
    else classified

unfoldable pub from_run_state :
    RunStatus → List SpanRecord → List ArtifactRecord → Option String → RunSummary
unfolding add_spans start_summary finish_summary
from_run_state run_status spans artifacts preview =
    finish_summary run_status spans (add_spans (start_summary spans artifacts preview) spans)
