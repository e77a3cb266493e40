-- ===== src/Model/Summary/Counts.antt =====
-- The counters of `from_run_state`: exact sums, cut off at `u64::MAX`.
use Prim.Native.Nat.{min}
use replay_kit.Common.{
  ℕ, ◌+◌, ◌≤◌, ◌≡◌, ◌↔◌, refl, String, false, none, ◌∷◌, ◌&&◌, Option, List, [], arith, length,
  keep, length-keep-le,
}
use replay_kit.Common.Tests.{if◌then◌else◌}
use replay_kit.Common.Eq.{◌==◌, nat_eq}
use replay_kit.Model.Enums.{RunStatus}
use replay_kit.Model.Records.{SpanRecord, ArtifactRecord, RunSummary}
use replay_kit.Model.Summary.{
  u64_max, span_contributes_error, run_status_implies_error, derived_failure_class, last_max,
  add_span, add_spans, start_summary, finish_summary, from_run_state,
}

-- What the spans used, with no bound.
pub total_tokens : List SpanRecord → ℕ
total_tokens [] = 0
total_tokens (span ∷ spans) = span.cost.input_tokens + span.cost.output_tokens + total_tokens spans

pub total_micros : List SpanRecord → ℕ
total_micros [] = 0
total_micros (span ∷ spans) = span.cost.estimated_cost_micros + total_micros spans

abbrev pub failed_spans : List SpanRecord → List SpanRecord
failed_spans = keep span_contributes_error

add_spans-tokens :
    (spans : List SpanRecord) (s : RunSummary)
    → s.token_count ≤ u64_max
    → (add_spans s spans).token_count ≡ min (s.token_count + total_tokens spans) u64_max
unfolding add_spans total_tokens
add_spans-tokens [] s h = omega arith
add_spans-tokens (span ∷ spans) s h =
    omega (arith, add_spans-tokens spans (add_span s span) (omega arith))

add_spans-micros :
    (spans : List SpanRecord) (s : RunSummary)
    → s.estimated_cost_micros ≤ u64_max
    → (add_spans s spans).estimated_cost_micros
      ≡ min (s.estimated_cost_micros + total_micros spans) u64_max
unfolding add_spans total_micros
add_spans-micros [] s h = omega arith
add_spans-micros (span ∷ spans) s h =
    omega (arith, add_spans-micros spans (add_span s span) (omega arith))

add_spans-errors :
    (spans : List SpanRecord) (s : RunSummary)
    → s.error_count ≤ u64_max
    → (add_spans s spans).error_count ≡ min (s.error_count + length (failed_spans spans)) u64_max
unfolding add_spans
add_spans-errors [] s h = omega arith
add_spans-errors (span ∷ spans) s h = ground (arith, add_spans-errors spans (add_span s span))

-- The token and cost counters of a summary are the sums over the spans, cut off at `u64::MAX`.
pub tokens-from_run_state :
    (status : RunStatus) (spans : List SpanRecord) (artifacts : List ArtifactRecord)
    (preview : Option String)
    → ((from_run_state status spans artifacts preview).token_count
        ≡ min (total_tokens spans) u64_max)
      × ((from_run_state status spans artifacts preview).estimated_cost_micros
          ≡ min (total_micros spans) u64_max)
unfolding finish_summary from_run_state start_summary
tokens-from_run_state status spans artifacts preview = ground (
  arith,
  add_spans-tokens spans (start_summary spans artifacts preview),
  add_spans-micros spans (start_summary spans artifacts preview),
)

-- With fewer than 2⁶⁴ spans the error count is the number of failed, blocked and canceled spans;
-- if there is none, it is 1 for a run whose own status is an error, and 0 for any other.
pub errors-from_run_state :
    (status : RunStatus) (spans : List SpanRecord) (artifacts : List ArtifactRecord)
    (preview : Option String)
    → length spans ≤ u64_max
    → (from_run_state status spans artifacts preview).error_count ≡ (
        if length (failed_spans spans) == 0 && run_status_implies_error status
        then 1
        else length (failed_spans spans))
unfolding finish_summary from_run_state start_summary
errors-from_run_state status spans artifacts preview h = ground (
  arith,
  add_spans-errors spans (start_summary spans artifacts preview),
  length-keep-le span_contributes_error spans,
)

derived_none :
    (status : RunStatus) (failed : List SpanRecord) (spans : List SpanRecord)
    → failed_spans spans ≡ failed
    → (derived_failure_class status spans ≡ none)
      ↔ (length failed ≡ 0) × (run_status_implies_error status ≡ false)
unfolding derived_failure_class last_max
derived_none status [] spans e = rw (e, derived_failure_class) (ground arith)
derived_none status (x ∷ xs) spans e = rw (e, derived_failure_class) (ground arith)

-- A summary names a failure class exactly when its error count is not 0.
pub failure_class-errors :
    (status : RunStatus) (spans : List SpanRecord) (artifacts : List ArtifactRecord)
    (preview : Option String)
    → ((from_run_state status spans artifacts preview).failure_class ≡ none)
      ↔ ((from_run_state status spans artifacts preview).error_count ≡ 0)
unfolding finish_summary from_run_state start_summary
failure_class-errors status spans artifacts preview = ground (
  arith,
  add_spans-errors spans (start_summary spans artifacts preview),
  derived_none status (failed_spans spans) spans refl,
)
