-- ===== src/Replay/Copy.antt =====
-- `copy_run_data` of crates/replay-engine/src/lib.rs: the records of the source run, put into the target.
use replay_kit.Common.{List, [], ◌∷◌}
use replay_kit.Common.Action.{write, pure, ◌>>◌}
use replay_kit.Model.Records.{
  RunId, SpanRecord, ArtifactRecord, SnapshotRecord, SpanEdgeRecord, EventRecord,
}
use replay_kit.Storage.Artifacts.{insert_artifact}
use replay_kit.Storage.Blob.{Env}
use replay_kit.Storage.Records.{upsert_span, insert_snapshot, insert_edge, insert_event}
use replay_kit.Workspace.Points.{Service, on_state}

module _ (env : Env) (target_run_id : RunId) where
  unfoldable pub copy_spans : List SpanRecord → Service (Unit {0})
  copy_spans [] = pure tt
  copy_spans (span ∷ spans) =
      write (on_state (upsert_span (record span { run_id = target_run_id }))) >> copy_spans spans

  unfoldable pub copy_artifacts : List ArtifactRecord → Service (Unit {0})
  copy_artifacts [] = pure tt
  copy_artifacts (artifact ∷ artifacts) =
      write (on_state (insert_artifact env (record artifact { run_id = target_run_id })))
      >> copy_artifacts artifacts

  unfoldable pub copy_snapshots : List SnapshotRecord → Service (Unit {0})
  copy_snapshots [] = pure tt
  copy_snapshots (snapshot ∷ snapshots) =
      write (on_state (insert_snapshot env (record snapshot { run_id = target_run_id })))
      >> copy_snapshots snapshots

  unfoldable pub copy_edges : List SpanEdgeRecord → Service (Unit {0})
  copy_edges [] = pure tt
  copy_edges (edge ∷ edges) =
      write (on_state (insert_edge (record edge { run_id = target_run_id }))) >> copy_edges edges

  unfoldable pub copy_events : List EventRecord → Service (Unit {0})
  copy_events [] = pure tt
  copy_events (event ∷ events) =
      write (on_state (insert_event (record event { run_id = target_run_id })))
      >> copy_events events

  unfoldable pub copy_run_data :
      List SpanRecord
      → List ArtifactRecord
      → List SnapshotRecord
      → List SpanEdgeRecord
      → List EventRecord
      → Service (Unit {0})
  copy_run_data spans artifacts snapshots edges events = do
    copy_spans spans
    copy_artifacts artifacts
    copy_snapshots snapshots
    copy_edges edges
    copy_events events
