-- ===== src/Examples/Replaying.antt =====
-- Where a replay starts, and which of its spans keep their recorded outcome.
use replay_kit.Common.{
  String, inl, inr, true, false, none, some, List, [], ◌∷◌, any, member, In, ◌≡◌, refl, ◌↔◌,
}
use replay_kit.Common.Eq.{◌==◌, string_eq}
use replay_kit.Common.Int.{pos}
use replay_kit.Common.Map.{Map}
use replay_kit.Common.Result.{Result, ok, err}
use replay_kit.Common.Tests.{if◌then◌else◌}
use replay_kit.Examples.Fixtures.{span_with, root_span, failed_span, open_span}
use replay_kit.Model.Enums.{
  SpanKind, SpanStatus, dirty_reason_eq, patched_input, upstream_output_changed,
}
use replay_kit.Model.Records.{SpanId, SpanRecord, DirtySpanRecord}
use replay_kit.Model.Value.{Document}
use replay_kit.Replay.BasePoint.{
  PartedAt, Chosen, taken_before, taken_earlier, base_point_index, base_point_index-Chosen,
  base_point_index-none,
}
use replay_kit.Replay.Template.{
  Parsed, Found, parse_placeholders, template_references, render_template,
}
use replay_kit.Replay.Template.Bounds.{IsOrdered, parse_placeholders-IsOrdered}
use replay_kit.Replay.Template.Rendered.{render_template-references}
use replay_kit.Replay.Upstream.{
  Outcome, is_empty, upstream_unchanged, IsUnchanged, upstream_unchanged-IsUnchanged,
}
use replay_kit.Storage.State.{MemoryState, empty_state}
use replay_kit.Workspace.Points.{WorkspacePhase, WorkspacePoint}

abbrev point_before : SpanId → WorkspacePoint
point_before span_id = record {
  snapshot = record {
    snapshot_id = span_id;
    run_id = "run";
    span_id = some span_id;
    kind = "workspace";
    artifact_id = "x";
    summary = Document.empty;
    created_at = 10;
  };
  phase = WorkspacePhase.before;
  ordinal = pos 0;
  span_id = some span_id;
}

abbrev some_points : List WorkspacePoint
some_points = point_before "a" ∷ point_before "c" ∷ []

abbrev recorded_spans : Map SpanId SpanRecord
recorded_spans = ("a", root_span) ∷ ("b", failed_span) ∷ ("c", open_span) ∷ []

-- No point was taken right before "b", but one was before "a".
base_point_index-Chosen_example :
    (parted : PartedAt 0 some_points) × Chosen recorded_spans some_points failed_span parted
unfolding base_point_index taken_before taken_earlier replay_kit.Replay.BasePoint.position
    replay_kit.Replay.BasePoint.is_before replay_kit.Replay.BasePoint.rposition
    replay_kit.Replay.BasePoint.starts_by replay_kit.Common.Map.get
base_point_index-Chosen_example =
    base_point_index-Chosen recorded_spans some_points failed_span 0 refl

base_point_index-none_example : (base_point_index recorded_spans some_points root_span ≡ none) ↔ (
    (any (taken_before root_span) some_points ≡ false)
    × (any (taken_earlier recorded_spans root_span) some_points ≡ false))
base_point_index-none_example = base_point_index-none recorded_spans some_points root_span

abbrev worked_span : SpanRecord
worked_span =
    record (span_with "run" "b" (some "a") 2 SpanKind.tool_call SpanStatus.completed (some 11)) {
      output_fingerprint = some "output";
    }

abbrev triggered : DirtySpanRecord
triggered = record {
  span_id = "c";
  reasons = upstream_output_changed ∷ [];
  triggered_by = "b" ∷ [];
}

abbrev replayed_state : MemoryState
replayed_state = record empty_state { spans = ("fork", ("b", worked_span) ∷ []) ∷ [] }

abbrev replayed_outcomes : Map SpanId Outcome
replayed_outcomes = ("b", Outcome.executed) ∷ []

abbrev worked_spans : Map SpanId SpanRecord
worked_spans = ("b", worked_span) ∷ []

keeps_outcome :
    upstream_unchanged replayed_outcomes worked_spans replayed_state "fork" triggered ≡ ok true
unfolding upstream_unchanged replay_kit.Model.Enums.DirtyReason-discrete
    replay_kit.Replay.Upstream.triggers_unchanged replay_kit.Replay.Upstream.source_unchanged
    replay_kit.Common.Map.get replay_kit.Replay.Rules.is_container
    replay_kit.Replay.Upstream.outcome_unchanged replay_kit.Storage.State.get_span
    replay_kit.Common.Table.get2 replay_kit.Replay.Upstream.replayed_otherwise
    replay_kit.Model.Enums.SpanStatus-discrete
keeps_outcome = refl

upstream_unchanged-IsUnchanged_example :
    (upstream_unchanged replayed_outcomes worked_spans replayed_state "fork" triggered ≡ ok true)
    ↔ ((is_empty triggered.triggered_by ≡ false)
        × (member patched_input triggered.reasons ≡ false)
        × ((trigger : SpanId)
            → In trigger triggered.triggered_by
            → IsUnchanged replayed_outcomes worked_spans replayed_state "fork" trigger))
upstream_unchanged-IsUnchanged_example =
    upstream_unchanged-IsUnchanged replayed_outcomes worked_spans replayed_state "fork" triggered

abbrev greeting : String
greeting = "say {{b|trim}}!"

parse_placeholders-IsOrdered_example :
    (parsed : Parsed (List Found)) × (parse_placeholders greeting ≡ some parsed)
    × ((found : List Found) → parsed ≡ ok found → IsOrdered greeting 0 found)
parse_placeholders-IsOrdered_example = parse_placeholders-IsOrdered greeting

abbrev knows_b : String → Result String String
knows_b id = if id == "b" then ok " hello " else err "unknown"

abbrev greets : String → Result String String
greets id = ok " hello "

only_b : (id : String) → In id ("b" ∷ []) → knows_b id ≡ greets id
only_b id (inl e) = rw e refl
only_b id (inr h) = absurd h

rendered_greeting : render_template greeting greets ≡ some (ok "say hello!")
unfolding render_template parse_placeholders replay_kit.Replay.Template.parse_from
    replay_kit.Common.Text.char_count replay_kit.Replay.Template.next_placeholder
    replay_kit.Common.Text.find_doubled replay_kit.Common.Text.drop_chars
    replay_kit.Common.Text.starts_doubled replay_kit.Replay.Template.placeholder_at
    replay_kit.Replay.Template.check_placeholder replay_kit.Replay.Template.split_filter
    replay_kit.Common.Text.split_once replay_kit.Common.Text.trim replay_kit.Common.Text.trim_start
    replay_kit.Common.Text.trim_end replay_kit.Common.Text.is_whitespace
    replay_kit.Common.Text.take_chars replay_kit.Replay.Template.check_filter
    replay_kit.Replay.Template.render_from replay_kit.Replay.Template.looked_up
    replay_kit.Replay.Template.filtered
rendered_greeting = refl

references_b : template_references greeting ≡ some (ok ("b" ∷ []))
unfolding template_references parse_placeholders replay_kit.Replay.Template.parse_from
    replay_kit.Common.Text.char_count replay_kit.Replay.Template.next_placeholder
    replay_kit.Common.Text.find_doubled replay_kit.Common.Text.drop_chars
    replay_kit.Common.Text.starts_doubled replay_kit.Replay.Template.placeholder_at
    replay_kit.Replay.Template.check_placeholder replay_kit.Replay.Template.split_filter
    replay_kit.Common.Text.split_once replay_kit.Common.Text.trim replay_kit.Common.Text.trim_start
    replay_kit.Common.Text.trim_end replay_kit.Common.Text.is_whitespace
    replay_kit.Common.Text.take_chars replay_kit.Replay.Template.check_filter
references_b = refl

render_template-references_example :
    render_template greeting knows_b ≡ render_template greeting greets
render_template-references_example =
    render_template-references greeting knows_b greets ("b" ∷ []) references_b only_b
