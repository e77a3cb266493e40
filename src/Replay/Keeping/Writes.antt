-- ===== src/Replay/Keeping/Writes.antt =====
-- The writes of a replay, one by one, and those that are made for one span.
use replay_kit.Common.{String, Option, none, some, List, [], ◌∷◌, ℕ, ◌≡◌, refl}
use replay_kit.Common.Action.{Keeps, keeps-bind, keeps-then, keeps-read, after_write, write}
use replay_kit.Common.Result.{ok, err, map_ok}
use replay_kit.Model.Enums.{IdKind}
use replay_kit.Model.Records.{
  RunId, SpanId, RunRecord, SpanRecord, ArtifactRecord, SnapshotRecord, SpanEdgeRecord, EventRecord,
  BranchRecord, ReplayJobRecord,
}
use replay_kit.Replay.Copy.{
  copy_spans, copy_artifacts, copy_snapshots, copy_edges, copy_events, copy_run_data,
}
use replay_kit.Replay.Engine.{ProducedArtifact, ProducedSnapshot}
use replay_kit.Replay.Keeping.{Survives}
use replay_kit.Replay.Persist.{
  mark_blocked, blocked_span, produced_record, persist_content, persist_executor_artifacts,
  persist_executor_snapshot, store_inline, or_inline, store_patched, inline_artifact,
}
use replay_kit.Replay.Rules.{reset_span_for_replay}
use replay_kit.Storage.Artifacts.{insert_artifact, store_artifact_with_content}
use replay_kit.Storage.Blob.{Env, Bytes}
use replay_kit.Storage.Branches.{insert_branch, insert_replay_job, update_replay_job}
use replay_kit.Storage.Calls.{Call, after, commit}
use replay_kit.Storage.Calls as Calls
use replay_kit.Storage.Error.{StorageError, Checked}
use replay_kit.Storage.Records.{upsert_span, insert_snapshot, insert_edge, insert_event}
use replay_kit.Storage.Runs.{update_run}
use replay_kit.Storage.State.{MemoryState, InMemoryStorage}
use replay_kit.Workspace.Keeping.{Calls}
use replay_kit.Workspace.Points.{on_state, new_id}

module _ (P : InMemoryStorage → Type 0) where
  -- A write of the state leaves what the call leaves.
  committed :
      (st : InMemoryStorage) (r : Checked MemoryState)
      → P (commit st r)
      → P (after_write (map_ok (λ s. record st { state = s }) r) st).1
  committed st (ok s) h = h
  committed st (err e) h = h

  write-Keeps :
      (f : MemoryState → Checked MemoryState)
      → ((st : InMemoryStorage) → P st → P (commit st (f st.state)))
      → Keeps P (write (on_state f))
  unfolding Keeps
  write-Keeps f k st p = committed st (f st.state) (k st p)

  module _ {env : Env} {r : RunId} (survives : Survives P env r) where
    pub new_id-Keeps : (kind : IdKind) → Keeps P (new_id kind)
    unfolding Keeps after
    new_id-Keeps kind st p = survives.call (Calls.allocate_id kind) st tt p

    pub update_run-Keeps :
        (run : RunRecord) → run.run_id ≡ r → Keeps P (write (on_state (update_run run)))
    unfolding after
    update_run-Keeps run h =
        write-Keeps (update_run run) (λ st. survives.call (Calls.update_run run) st h)

    pub upsert_span-Keeps :
        (span : SpanRecord) → span.run_id ≡ r → Keeps P (write (on_state (upsert_span span)))
    unfolding after
    upsert_span-Keeps span h =
        write-Keeps (upsert_span span) (λ st. survives.call (Calls.upsert_span span) st h)

    pub insert_event-Keeps :
        (event : EventRecord) → event.run_id ≡ r → Keeps P (write (on_state (insert_event event)))
    unfolding after
    insert_event-Keeps event h =
        write-Keeps (insert_event event) (λ st. survives.call (Calls.insert_event event) st h)

    pub insert_edge-Keeps :
        (edge : SpanEdgeRecord) → edge.run_id ≡ r → Keeps P (write (on_state (insert_edge edge)))
    unfolding after
    insert_edge-Keeps edge h =
        write-Keeps (insert_edge edge) (λ st. survives.call (Calls.insert_edge edge) st h)

    pub insert_artifact-Keeps :
        (artifact : ArtifactRecord)
        → artifact.run_id ≡ r
        → Keeps P (write (on_state (insert_artifact env artifact)))
    unfolding after
    insert_artifact-Keeps artifact h =
        write-Keeps (insert_artifact env artifact)
          (λ st. survives.call (Calls.insert_artifact artifact) st h)

    pub insert_snapshot-Keeps :
        (snapshot : SnapshotRecord)
        → snapshot.run_id ≡ r
        → Keeps P (write (on_state (insert_snapshot env snapshot)))
    unfolding after
    insert_snapshot-Keeps snapshot h =
        write-Keeps (insert_snapshot env snapshot)
          (λ st. survives.call (Calls.insert_snapshot snapshot) st h)

    pub insert_branch-Keeps :
        (branch : BranchRecord) → Keeps P (write (on_state (insert_branch env branch)))
    unfolding after
    insert_branch-Keeps branch =
        write-Keeps (insert_branch env branch)
          (λ st. survives.call (Calls.insert_branch branch) st tt)

    pub insert_replay_job-Keeps :
        (job : ReplayJobRecord) → Keeps P (write (on_state (insert_replay_job job)))
    unfolding after
    insert_replay_job-Keeps job =
        write-Keeps (insert_replay_job job)
          (λ st. survives.call (Calls.insert_replay_job job) st tt)

    pub update_replay_job-Keeps :
        (job : ReplayJobRecord) → Keeps P (write (on_state (update_replay_job job)))
    unfolding after
    update_replay_job-Keeps job =
        write-Keeps (update_replay_job job)
          (λ st. survives.call (Calls.update_replay_job job) st tt)

    pub store-Keeps :
        (artifact : ArtifactRecord) (content : Bytes)
        → artifact.run_id ≡ r
        → Keeps P (store_artifact_with_content env artifact content)
    unfolding Keeps after
    store-Keeps artifact content h st p =
        survives.call (Calls.store_artifact_with_content artifact content) st h p

    pub point-Calls : Calls P env r
    point-Calls = record {
      ids = new_id-Keeps;
      contents = store-Keeps;
      snapshots = insert_snapshot-Keeps;
    }

    pub mark_blocked-Keeps :
        (span : SpanRecord) (reason : String) (now : ℕ)
        → span.run_id ≡ r
        → Keeps P (mark_blocked span reason now)
    unfolding blocked_span reset_span_for_replay
    mark_blocked-Keeps span reason now h = upsert_span-Keeps (blocked_span span reason now) h

    persist_content-Keeps :
        (artifact : ArtifactRecord) (content : Option Bytes)
        → artifact.run_id ≡ r
        → Keeps P (persist_content env artifact content)
    persist_content-Keeps artifact (some content) h =
        keeps-bind P _ _ (store-Keeps artifact content h) (λ _. keeps-read P _)
    persist_content-Keeps artifact none h = insert_artifact-Keeps artifact h

    pub persist_executor_artifacts-Keeps :
        (span_id : SpanId) (artifacts : List ProducedArtifact)
        → Keeps P (persist_executor_artifacts env r span_id artifacts)
    unfolding persist_executor_artifacts produced_record
    persist_executor_artifacts-Keeps span_id [] = keeps-read P _
    persist_executor_artifacts-Keeps span_id (artifact ∷ artifacts) =
        keeps-bind P _ _ (new_id-Keeps IdKind.artifact) (λ id.
          keeps-then P _ _ (persist_content-Keeps _ artifact.content refl) (
            keeps-bind P _ _ (persist_executor_artifacts-Keeps span_id artifacts)
              (λ rest. keeps-read P _)))

    pub persist_executor_snapshot-Keeps :
        (span_id : SpanId) (snapshot : Option ProducedSnapshot)
        → Keeps P (persist_executor_snapshot env r span_id snapshot)
    unfolding persist_executor_snapshot produced_record
    persist_executor_snapshot-Keeps span_id none = keeps-read P _
    persist_executor_snapshot-Keeps span_id (some snapshot) =
        keeps-bind P _ _ (new_id-Keeps IdKind.artifact) (λ id.
          keeps-then P _ _ (persist_content-Keeps _ snapshot.artifact.content refl) (
            keeps-bind P _ _ (new_id-Keeps IdKind.snapshot)
              (λ snapshot_id. keeps-then P _ _ (insert_snapshot-Keeps _ refl) (keeps-read P _))))

    store_inline-Keeps :
        (artifact : ArtifactRecord) (text : String) (e : StorageError)
        → artifact.run_id ≡ r
        → Keeps P (store_inline env artifact text e)
    unfolding inline_artifact
    store_inline-Keeps artifact text (StorageError.internal m) h =
        keeps-then P _ _ (insert_artifact-Keeps (inline_artifact env artifact text) h)
          (keeps-read P _)
    store_inline-Keeps artifact text (StorageError.not_found m) h = keeps-read P _
    store_inline-Keeps artifact text (StorageError.conflict m) h = keeps-read P _
    store_inline-Keeps artifact text (StorageError.invalid_input m) h = keeps-read P _

    or_inline-Keeps :
        (artifact : ArtifactRecord) (text : String)
        (stored : Checked ArtifactRecord × InMemoryStorage)
        → artifact.run_id ≡ r
        → P stored.1
        → P (or_inline env artifact text stored).1
    unfolding Keeps
    or_inline-Keeps artifact text (ok stored, st) h p = p
    or_inline-Keeps artifact text (err e, st) h p = store_inline-Keeps artifact text e h st p

    pub store_patched-Keeps :
        (artifact : ArtifactRecord) (text : String)
        → artifact.run_id ≡ r
        → Keeps P (store_patched env artifact text)
    unfolding Keeps store_patched
    store_patched-Keeps artifact text h st p =
        or_inline-Keeps artifact text _ h (store-Keeps artifact _ h st p)

    copy_spans-Keeps : (spans : List SpanRecord) → Keeps P (copy_spans env r spans)
    unfolding copy_spans
    copy_spans-Keeps [] = keeps-read P _
    copy_spans-Keeps (span ∷ spans) =
        keeps-then P _ _ (upsert_span-Keeps _ refl) (copy_spans-Keeps spans)

    copy_artifacts-Keeps :
        (artifacts : List ArtifactRecord) → Keeps P (copy_artifacts env r artifacts)
    unfolding copy_artifacts
    copy_artifacts-Keeps [] = keeps-read P _
    copy_artifacts-Keeps (artifact ∷ artifacts) =
        keeps-then P _ _ (insert_artifact-Keeps _ refl) (copy_artifacts-Keeps artifacts)

    copy_snapshots-Keeps :
        (snapshots : List SnapshotRecord) → Keeps P (copy_snapshots env r snapshots)
    unfolding copy_snapshots
    copy_snapshots-Keeps [] = keeps-read P _
    copy_snapshots-Keeps (snapshot ∷ snapshots) =
        keeps-then P _ _ (insert_snapshot-Keeps _ refl) (copy_snapshots-Keeps snapshots)

    copy_edges-Keeps : (edges : List SpanEdgeRecord) → Keeps P (copy_edges env r edges)
    unfolding copy_edges
    copy_edges-Keeps [] = keeps-read P _
    copy_edges-Keeps (edge ∷ edges) =
        keeps-then P _ _ (insert_edge-Keeps _ refl) (copy_edges-Keeps edges)

    copy_events-Keeps : (events : List EventRecord) → Keeps P (copy_events env r events)
    unfolding copy_events
    copy_events-Keeps [] = keeps-read P _
    copy_events-Keeps (event ∷ events) =
        keeps-then P _ _ (insert_event-Keeps _ refl) (copy_events-Keeps events)

    pub copy_run_data-Keeps :
        (spans : List SpanRecord) (artifacts : List ArtifactRecord)
        (snapshots : List SnapshotRecord) (edges : List SpanEdgeRecord) (events : List EventRecord)
        → Keeps P (copy_run_data env r spans artifacts snapshots edges events)
    unfolding copy_run_data
    copy_run_data-Keeps spans artifacts snapshots edges events =
        keeps-then P _ _ (copy_spans-Keeps spans) (
          keeps-then P _ _ (copy_artifacts-Keeps artifacts) (
            keeps-then P _ _ (copy_snapshots-Keeps snapshots)
              (keeps-then P _ _ (copy_edges-Keeps edges) (copy_events-Keeps events))))
