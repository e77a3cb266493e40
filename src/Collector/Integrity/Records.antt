-- ===== src/Collector/Integrity/Records.antt =====
-- The methods that add events, artifacts, snapshots and edges keep the store well formed.
use replay_kit.Common.{Option, none, some}
use replay_kit.Common.Action.{Keeps, keeps-bind, keeps-then, keeps-read}
use replay_kit.Collector.Checks.{Host}
use replay_kit.Collector.Integrity.{
  Sound, via-Keeps, new_id-Keeps, store-Keeps, writing-Keeps, sequence-Keeps,
}
use replay_kit.Collector.Records.{
  add_event, keep_artifact, add_artifact, check_span_of, add_snapshot, add_edge,
}
use replay_kit.Collector.Requests.{EventSpec, ArtifactSpec, SnapshotSpec, EdgeSpec}
use replay_kit.Model.Enums.{IdKind}
use replay_kit.Model.Records.{RunId, SpanId, ArtifactRecord}
use replay_kit.Storage.Blob.{Bytes}
use replay_kit.Storage.Integrity.Artifacts.{
  insert_artifact-IsWellFormed, insert_snapshot-IsWellFormed,
}
use replay_kit.Storage.Integrity.Events.{insert_event-IsWellFormed, insert_edge-IsWellFormed}
use replay_kit.Collector.Patch.{patch_manifest_spec, patch_manifest_artifact}
use replay_kit.Model.Records.{BranchRequest}
use replay_kit.Collector.Integrity.Checks.{
  ensure_run_exists-Keeps, ensure_span_exists-Keeps, ensure_optional_span-Keeps,
  ensure_attached-Keeps, lookup_artifact-Keeps,
}

module _ (host : Host) where
  pub add_event-Keeps :
      (run_id : RunId) (span_id : SpanId) (spec : EventSpec)
      → Keeps Sound (add_event run_id span_id spec)
  unfolding add_event
  add_event-Keeps run_id span_id spec =
      keeps-then Sound _ _ (ensure_span_exists-Keeps run_id span_id) (
        keeps-bind Sound _ _ (via-Keeps _ (new_id-Keeps IdKind.event)) (λ event_id.
          keeps-bind Sound _ _ (sequence-Keeps run_id) (λ sequence_no.
            keeps-then Sound _ _ (writing-Keeps _ (λ s t h w. insert_event-IsWellFormed s _ h w))
              (keeps-read Sound _))))

  keep_artifact-Keeps :
      (artifact : ArtifactRecord) (content : Option Bytes)
      → Keeps Sound (keep_artifact host artifact content)
  unfolding keep_artifact
  keep_artifact-Keeps artifact none =
      keeps-then Sound _ _
        (writing-Keeps _ (λ s t h w. insert_artifact-IsWellFormed host.env s _ h w))
        (keeps-read Sound _)
  keep_artifact-Keeps artifact (some content) = via-Keeps _ (store-Keeps host.env artifact content)

  pub add_artifact-Keeps :
      (run_id : RunId) (span_id : Option SpanId) (spec : ArtifactSpec)
      → Keeps Sound (add_artifact host run_id span_id spec)
  unfolding add_artifact
  add_artifact-Keeps run_id span_id spec = keeps-then Sound _ _ (ensure_run_exists-Keeps run_id) (
      keeps-then Sound _ _ (ensure_optional_span-Keeps run_id span_id) (
        keeps-bind Sound _ _ (via-Keeps _ (new_id-Keeps IdKind.artifact))
          (λ artifact_id. keep_artifact-Keeps _ spec.content)))

  check_span_of-Keeps :
      (run_id : RunId) (span_id : Option SpanId) (artifact : ArtifactRecord)
      → Keeps Sound (check_span_of host run_id span_id artifact)
  unfolding check_span_of
  check_span_of-Keeps run_id none artifact = keeps-read Sound _
  check_span_of-Keeps run_id (some span_id) artifact =
      keeps-then Sound _ _ (ensure_span_exists-Keeps run_id span_id)
        (ensure_attached-Keeps artifact.span_id _ span_id _)

  pub add_snapshot-Keeps :
      (run_id : RunId) (span_id : Option SpanId) (spec : SnapshotSpec)
      → Keeps Sound (add_snapshot host run_id span_id spec)
  unfolding add_snapshot
  add_snapshot-Keeps run_id span_id spec = keeps-then Sound _ _ (ensure_run_exists-Keeps run_id) (
      keeps-bind Sound _ _ (lookup_artifact-Keeps host run_id spec.artifact_id _) (λ artifact.
        keeps-then Sound _ _ (check_span_of-Keeps run_id span_id artifact) (
          keeps-bind Sound _ _ (via-Keeps _ (new_id-Keeps IdKind.snapshot)) (λ snapshot_id.
            keeps-then Sound _ _
              (writing-Keeps _ (λ s t h w. insert_snapshot-IsWellFormed host.env s _ h w))
              (keeps-read Sound _)))))

  pub patch_manifest_artifact-Keeps :
      (run_id : RunId) (request : BranchRequest)
      → Keeps Sound (patch_manifest_artifact host run_id request)
  unfolding patch_manifest_artifact
  patch_manifest_artifact-Keeps run_id request =
      add_artifact-Keeps run_id (some request.fork_span_id) (patch_manifest_spec request)

pub add_edge-Keeps : (run_id : RunId) (spec : EdgeSpec) → Keeps Sound (add_edge run_id spec)
unfolding add_edge
add_edge-Keeps run_id spec = keeps-then Sound _ _ (ensure_run_exists-Keeps run_id) (
    keeps-then Sound _ _ (ensure_span_exists-Keeps run_id spec.from_span_id) (
      keeps-then Sound _ _ (ensure_span_exists-Keeps run_id spec.to_span_id) (
        keeps-bind Sound _ _ (via-Keeps _ (new_id-Keeps IdKind.edge)) (λ edge_id.
          keeps-then Sound _ _ (writing-Keeps _ (λ s t h w. insert_edge-IsWellFormed s _ h w))
            (keeps-read Sound _)))))
