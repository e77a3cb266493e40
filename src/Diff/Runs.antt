-- ===== src/Diff/Runs.antt =====
-- `diff_runs` of `DiffEngine`, over the storage of the same process.
use replay_kit.Common.{
  ℕ, ◌+◌, ◌%◌, ◌^◌, String, Option, none, some, List, [], ◌∷◌, ◌++◌, map, keep, member,
}
use replay_kit.Common.Action.{Action, ask, try_ask, update, write, pure, ◌>>=◌, ◌>>◌}
use replay_kit.Common.Eq.{◌!=◌, string_eq, string_ord, option_eq, negate}
use replay_kit.Common.Int.{ℤ, as_i64, sub_as_i64}
use replay_kit.Common.Map.{Map, insert, values}
use replay_kit.Diff.Artifacts.{count_changed_artifacts}
use replay_kit.Diff.Compare.{
  SpanDiff, Divergence, no_divergence, compare_spans, duration, delta, or,
}
use replay_kit.Model.Enums.{RunStatus, IdKind}
use replay_kit.Model.Records.{RunId, SpanId, RunRecord, SpanRecord, ArtifactRecord, RunDiffRecord}
use replay_kit.Model.Value.{Value, Values, Document, insert_field}
use replay_kit.Storage.Artifacts.{list_artifacts}
use replay_kit.Storage.Blob.{Env}
use replay_kit.Storage.Branches.{insert_diff, get_diff}
use replay_kit.Storage.Error.{StorageError, Checked}
use replay_kit.Storage.Records.{list_spans}
use replay_kit.Storage.Runs.{allocate_id}
use replay_kit.Storage.State.{MemoryState, get_run}

-- `format!("{:?}", status)`.
unfoldable pub run_status_name : RunStatus → String
run_status_name RunStatus.running = "Running"
run_status_name RunStatus.completed = "Completed"
run_status_name RunStatus.failed = "Failed"
run_status_name RunStatus.interrupted = "Interrupted"
run_status_name RunStatus.canceled = "Canceled"
run_status_name RunStatus.blocked = "Blocked"
run_status_name RunStatus.imported = "Imported"

abbrev pub span_ids : List SpanRecord → List SpanId
span_ids = map (λ span. span.span_id)

-- The spans by their ids.
abbrev pub spans_from : Map SpanId SpanRecord → List SpanRecord → Map SpanId SpanRecord
spans_from m [] = m
spans_from m (span ∷ spans) = spans_from (insert span.span_id span m) spans

abbrev pub by_id : List SpanRecord → Map SpanId SpanRecord
by_id = spans_from []

-- Those of the source in their order, then those that the target alone has.
unfoldable pub ordered_span_ids : List SpanRecord → List SpanRecord → List SpanId
ordered_span_ids source target =
    let source_order = span_ids source in
    source_order ++ keep (λ id. negate (member id source_order)) (span_ids target)

unfoldable pub compare_all : List SpanRecord → List SpanRecord → Divergence
unfolding compare_spans
compare_all source target =
    compare_spans (by_id source) (by_id target) (ordered_span_ids source target) no_divergence

-- The span at which the runs part, once all are compared.
unfoldable pub divergence_of : Divergence → Option SpanId
divergence_of d = or d.first_divergent d.first_container

-- The sum of a run's tokens, in a `u64` that wraps round.
unfoldable pub sum_tokens : List SpanRecord → ℕ
sum_tokens [] = 0
sum_tokens (span ∷ spans) =
    (span.cost.input_tokens + span.cost.output_tokens + sum_tokens spans) % 2 ^ 64

abbrev pub latency_delta : RunRecord → RunRecord → Option ℤ
unfolding delta
latency_delta source target =
    delta (duration source.started_at source.ended_at) (duration target.started_at target.ended_at)

-- `if let Some(v) = ... { d.insert(k, v); }`.
abbrev pub insert_some : {A : Type 0} → String → (A → Value) → Option A → Document → Document
insert_some k f none d = d
insert_some k f (some v) d = insert_field k (f v) d

unfoldable pub span_diff_value : SpanDiff → Value
unfolding insert_field
span_diff_value sd =
    let ids =
      insert_field "span_id_target" (Value.text sd.span_id_target)
        (insert_field "span_id_source" (Value.text sd.span_id_source) Document.empty) in
    let named = insert_some "duration_ms_delta" Value.int sd.duration_ms_delta (
      insert_some "status_change" Value.text sd.status_change
        (insert_field "name" (Value.text sd.name) ids)) in
    Value.object (
      insert_some "dirty_reason" Value.text sd.dirty_reason
        (insert_field "output_changed" (Value.bool sd.output_changed) named))

unfoldable pub span_diff_values : List SpanDiff → Values
unfolding span_diff_value
span_diff_values [] = Values.nil
span_diff_values (sd ∷ rest) = Values.cons (span_diff_value sd) (span_diff_values rest)

-- The summary of a comparison.
unfoldable pub diff_summary : RunRecord → RunRecord → Divergence → ℕ → Option SpanId → ℤ → Document
unfolding insert_field span_diff_values run_status_name
diff_summary source target d artifacts first token_delta =
    let statuses =
      insert_field "target_status" (Value.text (run_status_name target.status)) (
        insert_field "source_status" (Value.text (run_status_name source.status)) Document.empty) in
    let counts =
      insert_field "changed_artifact_count" (Value.int (as_i64 artifacts))
        (insert_field "changed_span_count" (Value.int (as_i64 d.changed_span_count)) statuses) in
    let deltas = insert_field "token_delta" (Value.int token_delta) (
      insert_some "latency_ms_delta" Value.int (latency_delta source target)
        (insert_some "first_divergent_span" Value.text first counts)) in
    insert_field "span_diffs" (Value.array (span_diff_values d.span_diffs)) (
      insert_field "final_output_changed"
        (Value.bool (source.summary.final_output_preview != target.summary.final_output_preview))
        deltas)

-- What `diff_runs` reads of a run.
pub record Side : Type 0 where
  pub run : RunRecord
  pub spans : List SpanRecord
  pub artifacts : List ArtifactRecord

abbrev pub side_tokens : Side → ℕ
unfolding sum_tokens
side_tokens side = sum_tokens (values (by_id side.spans))

-- The record of a comparison.
unfoldable pub diff_record : RunId → RunId → Side → Side → ℕ → String → RunDiffRecord
unfolding compare_all divergence_of
diff_record source_run_id target_run_id source target at id =
    let d = compare_all source.spans target.spans in
    let first = divergence_of d in
    let artifacts = count_changed_artifacts source.artifacts target.artifacts in
    let token_delta = sub_as_i64 (side_tokens target) (side_tokens source) in
    record {
      diff_id = id;
      source_run_id = source_run_id;
      target_run_id = target_run_id;
      first_divergent_span_id = first;
      changed_span_count = d.changed_span_count;
      changed_artifact_count = artifacts;
      source_status = source.run.status;
      target_status = target.run.status;
      summary = diff_summary source.run target.run d artifacts first token_delta;
      created_at = at;
    }

abbrev pub Engine : Type 0 → Type 0
Engine = Action MemoryState StorageError

unfoldable pub diff_runs : Env → RunId → RunId → ℕ → Engine RunDiffRecord
diff_runs env source_run_id target_run_id at = do
  source ← try_ask (get_run source_run_id)
  target ← try_ask (get_run target_run_id)
  source_spans ← ask (list_spans source_run_id)
  target_spans ← ask (list_spans target_run_id)
  source_artifacts ← try_ask (list_artifacts env source_run_id)
  target_artifacts ← try_ask (list_artifacts env target_run_id)
  let source_side : Side = record {
    run = source;
    spans = source_spans;
    artifacts = source_artifacts;
  }
  let target_side : Side = record {
    run = target;
    spans = target_spans;
    artifacts = target_artifacts;
  }
  id ← update (allocate_id IdKind.diff)
  let diff = diff_record source_run_id target_run_id source_side target_side at id
  write (insert_diff diff)
  pure diff

abbrev pub get_cached_diff : RunId → RunId → MemoryState → Checked RunDiffRecord
unfolding get_diff
get_cached_diff = get_diff
