-- ===== src/Diff/Compare.antt =====
-- `spans_differ`, `build_span_diff` and the loop of `diff_runs` over the span ids.
use Prim.Native.String.{◌++◌}
use replay_kit.Common.{
  ℕ, ◌+◌, ◌-◌, String, Bool, true, false, ◌||◌, Option, none, some, List, [], ◌∷◌, push_back,
}
use replay_kit.Common.Eq.{◌==◌, ◌!=◌, string_eq, option_eq}
use replay_kit.Common.Int.{ℤ, sub_as_i64}
use replay_kit.Common.Map.{Map, get}
use replay_kit.Common.Tests.{if◌then◌else◌}
use replay_kit.Model.Enums.{SpanKind, SpanStatus, span_status_eq}
use replay_kit.Model.Records.{SpanId, SpanRecord}

unfoldable pub records_differ : SpanRecord → SpanRecord → Bool
records_differ source target =
    source.status != target.status
    || source.output_fingerprint != target.output_fingerprint
    || source.input_fingerprint != target.input_fingerprint
    || source.snapshot_id != target.snapshot_id
    || source.error_summary != target.error_summary

unfoldable pub spans_differ : Option SpanRecord → Option SpanRecord → Bool
spans_differ none none = false
spans_differ (some source) none = true
spans_differ none (some target) = true
spans_differ (some source) (some target) = records_differ source target

-- A run, a planner step or a subgraph.
unfoldable pub is_container : SpanKind → Bool
is_container SpanKind.run = true
is_container SpanKind.planner_step = true
is_container SpanKind.subgraph = true
is_container _ = false

-- `a.or(b)`.
abbrev pub or {ℓ} : {A : Type ℓ} → Option A → Option A → Option A
or none b = b
or (some a) b = some a

-- `source_span.or(target_span).is_some_and(...)`.
unfoldable pub is_container_span : Option SpanRecord → Bool
unfolding is_container
is_container_span none = false
is_container_span (some span) = is_container span.kind

-- `ended_at.map(|e| e.saturating_sub(started_at))`.
abbrev pub duration : ℕ → Option ℕ → Option ℕ
duration started_at none = none
duration started_at (some ended_at) = some (ended_at - started_at)

abbrev pub span_duration : Option SpanRecord → Option ℕ
span_duration none = none
span_duration (some span) = duration span.started_at span.ended_at

-- `t as i64 - s as i64`, where both are there.
unfoldable pub delta : Option ℕ → Option ℕ → Option ℤ
delta (some s) (some t) = some (sub_as_i64 t s)
delta (some s) none = none
delta none t = none

-- `format!("{:?}", status)`.
unfoldable pub span_status_name : SpanStatus → String
span_status_name SpanStatus.running = "Running"
span_status_name SpanStatus.completed = "Completed"
span_status_name SpanStatus.failed = "Failed"
span_status_name SpanStatus.skipped = "Skipped"
span_status_name SpanStatus.blocked = "Blocked"
span_status_name SpanStatus.canceled = "Canceled"

unfoldable pub status_change : Option SpanRecord → Option SpanRecord → Option String
status_change none none = none
status_change (some s) (some t) =
    if s.status != t.status
    then some (span_status_name s.status ++ " -> " ++ span_status_name t.status)
    else none
status_change none (some t) = some ("New (" ++ span_status_name t.status ++ ")")
status_change (some s) none = some ("Removed (" ++ span_status_name s.status ++ ")")

unfoldable pub changed_reason : SpanRecord → SpanRecord → String
changed_reason s t =
    if s.input_fingerprint != t.input_fingerprint
    then "fingerprint_changed"
    else if s.output_fingerprint != t.output_fingerprint
    then "upstream_output_changed"
    else "status_changed"

unfoldable pub dirty_reason : Option SpanRecord → Option SpanRecord → Option String
dirty_reason none none = none
dirty_reason none (some t) = some "new_span"
dirty_reason (some s) none = some "removed_span"
dirty_reason (some s) (some t) = some (changed_reason s t)

abbrev pub fingerprint_of : Option SpanRecord → Option String
fingerprint_of none = none
fingerprint_of (some span) = span.output_fingerprint

abbrev pub name_of : Option SpanRecord → String
name_of none = ""
name_of (some span) = span.name

-- The id of the span, or the one that was looked for where the span is missing or has an empty id.
abbrev pub id_or : SpanId → Option SpanRecord → SpanId
id_or span_id none = span_id
id_or span_id (some span) = if span.span_id == "" then span_id else span.span_id

pub record SpanDiff : Type 0 where
  pub span_id_source : SpanId
  pub span_id_target : SpanId
  pub name : String
  pub status_change : Option String
  pub duration_ms_delta : Option ℤ
  pub output_changed : Bool
  pub dirty_reason : Option String

unfoldable pub build_span_diff : SpanId → Option SpanRecord → Option SpanRecord → SpanDiff
unfolding delta
build_span_diff span_id source target = record {
  span_id_source = id_or span_id source;
  span_id_target = id_or span_id target;
  name = name_of (or source target);
  status_change = status_change source target;
  duration_ms_delta = delta (span_duration source) (span_duration target);
  output_changed = fingerprint_of source != fingerprint_of target;
  dirty_reason = dirty_reason source target;
}

-- The variables of the loop over the span ids.
pub record Divergence : Type 0 where
  pub first_divergent : Option SpanId
  pub first_container : Option SpanId
  pub changed_span_count : ℕ
  pub span_diffs : List SpanDiff

abbrev pub no_divergence : Divergence
no_divergence = record {
  first_divergent = none;
  first_container = none;
  changed_span_count = 0;
  span_diffs = [];
}

-- What a span that differs does to the variables.
unfoldable pub note_difference :
    SpanId → Option SpanRecord → Option SpanRecord → Divergence → Divergence
note_difference span_id source target d =
    let container = is_container_span (or source target) in
    record d {
      changed_span_count = d.changed_span_count + 1;
      first_divergent =
          if container then d.first_divergent else or d.first_divergent (some span_id);
      first_container =
          if container then or d.first_container (some span_id) else d.first_container;
      span_diffs = push_back d.span_diffs (build_span_diff span_id source target);
    }

module _ (source_map target_map : Map SpanId SpanRecord) where
  unfoldable pub compare_span : SpanId → Divergence → Divergence
  compare_span span_id d =
      let source = get span_id source_map in
      let target = get span_id target_map in
      if spans_differ source target then note_difference span_id source target d else d

  unfoldable pub compare_spans : List SpanId → Divergence → Divergence
  compare_spans [] d = d
  compare_spans (span_id ∷ rest) d = compare_spans rest (compare_span span_id d)
