-- ===== src/Collector/Lifecycle.antt =====
-- Spans end once, and a run finishes when its spans have ended. First what a capture of the
-- workspace, which comes last or between, leaves alone.
pub mod Spans
pub mod Runs
use replay_kit.Common.{ℕ, Option, ◌≡◌, refl, ◌∙◌, arith}
use replay_kit.Common.Action.{Keeps, write, after_write}
use replay_kit.Common.Result.{ok, err, map_ok}
use replay_kit.Collector.Checks.{Host, capture_workspace}
use replay_kit.Collector.Integrity.Capture.{capture-Keeps}
use replay_kit.Model.Records.{RunId, ArtifactRecord, SnapshotRecord, RunRecord, SpanId}
use replay_kit.Storage.Artifacts.{store_artifact_with_content, record_stored, insert_artifact}
use replay_kit.Storage.Blob.{Env}
use replay_kit.Storage.Error.{Checked}
use replay_kit.Storage.Records.{insert_snapshot}
use replay_kit.Storage.Runs.{allocate_id}
use replay_kit.Storage.State.{MemoryState, InMemoryStorage}
use replay_kit.Workspace.Archive.{CaptureOptions}
use replay_kit.Workspace.Keeping.{Calls}
use replay_kit.Workspace.Points.{WorkspacePhase, on_state}

-- The runs and the spans of one state are those of another.
abbrev pub SameRecords : MemoryState → MemoryState → Type 0
SameRecords before s = (s.runs ≡ before.runs) × (s.spans ≡ before.spans)

insert_artifact-same :
    {t : MemoryState} (env : Env) (artifact : ArtifactRecord) (s : MemoryState)
    → insert_artifact env artifact s ≡ ok t
    → SameRecords s t
unfolding insert_artifact
insert_artifact-same env artifact s h = ground arith

insert_snapshot-same :
    {t : MemoryState} (env : Env) (snapshot : SnapshotRecord) (s : MemoryState)
    → insert_snapshot env snapshot s ≡ ok t
    → SameRecords s t
unfolding insert_snapshot
insert_snapshot-same env snapshot s h = ground arith

module _ (before : MemoryState) where
  abbrev pub Recorded : InMemoryStorage → Type 0
  Recorded st = SameRecords before st.state

  record_stored-Recorded :
      (env : Env) (artifact : ArtifactRecord) (st : InMemoryStorage) (r : Checked MemoryState)
      → ((t : MemoryState) → r ≡ ok t → SameRecords st.state t)
      → Recorded st
      → Recorded (record_stored env artifact st r).1
  unfolding record_stored
  record_stored-Recorded env artifact st (ok t) k p = ((k t refl).0 ∙ p.0, (k t refl).1 ∙ p.1)
  record_stored-Recorded env artifact st (err e) k p = p

  write-Recorded :
      (st : InMemoryStorage) (r : Checked MemoryState)
      → ((t : MemoryState) → r ≡ ok t → SameRecords st.state t)
      → Recorded st
      → Recorded (after_write (map_ok (λ s. record st { state = s }) r) st).1
  write-Recorded st (ok t) k p = ((k t refl).0 ∙ p.0, (k t refl).1 ∙ p.1)
  write-Recorded st (err e) k p = p

  Recorded-Calls : (env : Env) (run_id : RunId) → Calls Recorded env run_id
  unfolding Keeps allocate_id store_artifact_with_content
  Recorded-Calls env run_id = record {
    ids = λ kind st p. p;
    contents = λ artifact content e st p.
        record_stored-Recorded env _ _ _ (λ t h. insert_artifact-same env _ st.state h) p;
    snapshots = λ snapshot e st p.
        write-Recorded st (insert_snapshot env snapshot st.state)
          (λ t h. insert_snapshot-same env snapshot st.state h) p;
  }

-- A capture leaves the runs and the spans as they are.
pub capture_workspace-same :
    (host : Host) (options : CaptureOptions) (run : RunRecord) (span_id : Option SpanId)
    (phase : WorkspacePhase) (at : ℕ) (st : InMemoryStorage)
    → SameRecords st.state (capture_workspace host options run span_id phase at st).1.state
unfolding Keeps
capture_workspace-same host options run span_id phase at st =
    capture-Keeps (Recorded st.state) host (Recorded-Calls st.state host.env) options run span_id
      phase at st (refl, refl)
