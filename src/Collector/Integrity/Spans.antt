-- ===== src/Collector/Integrity/Spans.antt =====
-- `start_span` and `end_span` keep the store well formed.
use replay_kit.Common.{Bool, true, false, Option, none, some, List, [], ◌∷◌}
use replay_kit.Common.Action.{Keeps, keeps-bind, keeps-then, keeps-read}
use replay_kit.Collector.Checks.{Host, lookup_snapshot}
use replay_kit.Collector.Integrity.{Sound, via-Keeps, new_id-Keeps, writing-Keeps, sequence-Keeps}
use replay_kit.Collector.Integrity.Capture.{capture_workspace-Keeps}
use replay_kit.Collector.Requests.{SpanSpec, EndSpan}
use replay_kit.Collector.Spans.{
  choose_span_id, set_root_if, lookup_inputs, check_outputs, check_snapshot, start_span, end_span,
}
use replay_kit.Model.Enums.{IdKind}
use replay_kit.Model.Records.{RunId, TraceId, SpanId, ArtifactId, SnapshotId, RunRecord, SpanRecord}
use replay_kit.Storage.Integrity.Spans.{update_run-IsWellFormed, upsert_span-IsWellFormed}
use replay_kit.Workspace.Archive.{CaptureOptions}
use replay_kit.Collector.Integrity.Checks.{
  ensure_run_exists-Keeps, ensure_optional_span-Keeps, ensure_attached-Keeps, lookup_artifact-Keeps,
}

module _ (host : Host) (options : CaptureOptions) where
  lookup_inputs-Keeps :
      (run_id : RunId) (ids : List ArtifactId) → Keeps Sound (lookup_inputs host options run_id ids)
  unfolding lookup_inputs
  lookup_inputs-Keeps run_id [] = keeps-read Sound _
  lookup_inputs-Keeps run_id (id ∷ ids) =
      keeps-bind Sound _ _ (lookup_artifact-Keeps host run_id id _)
        (λ artifact. lookup_inputs-Keeps run_id ids)

  check_outputs-Keeps :
      (run_id : RunId) (span_id : SpanId) (ids : List ArtifactId)
      → Keeps Sound (check_outputs host options run_id span_id ids)
  unfolding check_outputs
  check_outputs-Keeps run_id span_id [] = keeps-read Sound _
  check_outputs-Keeps run_id span_id (id ∷ ids) =
      keeps-bind Sound _ _ (lookup_artifact-Keeps host run_id id _) (λ artifact.
        keeps-then Sound _ _ (ensure_attached-Keeps artifact.span_id _ span_id _)
          (check_outputs-Keeps run_id span_id ids))

  check_snapshot-Keeps :
      (run_id : RunId) (span_id : SpanId) (snapshot_id : Option SnapshotId)
      → Keeps Sound (check_snapshot host options run_id span_id snapshot_id)
  unfolding check_snapshot lookup_snapshot
  check_snapshot-Keeps run_id span_id none = keeps-read Sound _
  check_snapshot-Keeps run_id span_id (some snapshot_id) =
      keeps-bind Sound _ _ (keeps-read Sound _)
        (λ snapshot. ensure_attached-Keeps snapshot.span_id _ span_id _)

  choose_span_id-Keeps :
      (run_id : RunId) (span_id : Option SpanId) → Keeps Sound (choose_span_id run_id span_id)
  unfolding choose_span_id
  choose_span_id-Keeps run_id none = via-Keeps _ (new_id-Keeps IdKind.span)
  choose_span_id-Keeps run_id (some span_id) =
      keeps-bind Sound _ _ (keeps-read Sound _)
        (λ taken. keeps-then Sound _ _ (keeps-read Sound _) (keeps-read Sound _))

  set_root_if-Keeps :
      (b : Bool) (span : SpanRecord) (run : RunRecord) → Keeps Sound (set_root_if b span run)
  unfolding set_root_if
  set_root_if-Keeps true span run =
      keeps-then Sound _ _ (writing-Keeps _ (λ s t h w. update_run-IsWellFormed s _ h w))
        (keeps-read Sound _)
  set_root_if-Keeps false span run = keeps-read Sound _

  pub start_span-Keeps :
      (run_id : RunId) (trace_id : TraceId) (spec : SpanSpec)
      → Keeps Sound (start_span host options run_id trace_id spec)
  unfolding start_span
  start_span-Keeps run_id trace_id spec = keeps-then Sound _ _ (ensure_run_exists-Keeps run_id) (
      keeps-bind Sound _ _ (sequence-Keeps run_id) (λ sequence_no.
        keeps-then Sound _ _ (ensure_optional_span-Keeps run_id spec.parent_span_id) (
          keeps-then Sound _ _ (lookup_inputs-Keeps run_id spec.input_artifact_ids) (
            keeps-bind Sound _ _ (choose_span_id-Keeps run_id spec.span_id) (λ span_id.
              keeps-then Sound _ _ (writing-Keeps _ (λ s t h w. upsert_span-IsWellFormed s _ h w)) (
                keeps-bind Sound _ _ (keeps-read Sound _) (λ run.
                  keeps-bind Sound _ _ (set_root_if-Keeps _ _ run) (λ rooted_run.
                    keeps-then Sound _ _
                      (capture_workspace-Keeps host options rooted_run (some span_id) _ _)
                      (keeps-read Sound _)))))))))

  pub end_span-Keeps :
      (run_id : RunId) (span_id : SpanId) (update : EndSpan)
      → Keeps Sound (end_span host options run_id span_id update)
  unfolding end_span
  end_span-Keeps run_id span_id update = keeps-bind Sound _ _ (keeps-read Sound _) (λ span.
      keeps-then Sound _ _ (keeps-read Sound _) (
        keeps-then Sound _ _ (keeps-read Sound _) (
          keeps-then Sound _ _ (check_outputs-Keeps run_id span_id update.output_artifact_ids) (
            keeps-then Sound _ _ (check_snapshot-Keeps run_id span_id update.snapshot_id) (
              keeps-then Sound _ _ (writing-Keeps _ (λ s t h w. upsert_span-IsWellFormed s _ h w)) (
                keeps-bind Sound _ _ (keeps-read Sound _) (λ run.
                  keeps-then Sound _ _
                    (capture_workspace-Keeps host options run (some _) _ update.ended_at)
                    (keeps-read Sound _))))))))
