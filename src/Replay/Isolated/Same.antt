-- ===== src/Replay/Isolated/Same.antt =====
-- What stays of a run when another is written to.
use mathlib.Core.Path.{subst}
use replay_kit.Common.{String, List, ◌≡◌, ◌≢◌, refl, ◌∙◌, arith}
use replay_kit.Common.Eq.{string_eq, string_ord}
use replay_kit.Common.Map.{Map, get, insert, get-insert}
use replay_kit.Common.Result.{ok}
use replay_kit.Common.Table.{or_empty, get2, insert2, get2-insert2, push, list-push}
use replay_kit.Model.Records.{
  RunId, SpanId, ArtifactId, SnapshotId, RunRecord, SpanRecord, EventRecord, ArtifactRecord,
  SnapshotRecord, SpanEdgeRecord, BranchRecord, ReplayJobRecord,
}
use replay_kit.Storage.Artifacts
use replay_kit.Storage.Artifacts.{record_stored, with_blob}
use replay_kit.Storage.Blob.{Env}
use replay_kit.Storage.Branches
use replay_kit.Storage.Records
use replay_kit.Storage.Runs
use replay_kit.Storage.State.{
  MemoryState, span_at, artifact_at, snapshot_at, events_of, edges_of, ensure_run_exists,
}

-- The record of the run, and its spans, artifacts, snapshots, events and edges, are the same.
pub record SameRun (s t : MemoryState) (q : RunId) : Type 0 where
  pub run : get q t.runs ≡ get q s.runs
  pub spans : (i : SpanId) → span_at t q i ≡ span_at s q i
  pub artifacts : (i : ArtifactId) → artifact_at t q i ≡ artifact_at s q i
  pub snapshots : (i : SnapshotId) → snapshot_at t q i ≡ snapshot_at s q i
  pub events : events_of t q ≡ events_of s q
  pub edges : edges_of t q ≡ edges_of s q

pub SameRun-refl : (s : MemoryState) (q : RunId) → SameRun s s q
SameRun-refl s q = record {
  run = refl;
  spans = λ i. refl;
  artifacts = λ i. refl;
  snapshots = λ i. refl;
  events = refl;
  edges = refl;
}

pub SameRun-trans :
    (s t u : MemoryState) (q : RunId) → SameRun s t q → SameRun t u q → SameRun s u q
SameRun-trans s t u q a b = record {
  run = b.run ∙ a.run;
  spans = λ i. b.spans i ∙ a.spans i;
  artifacts = λ i. b.artifacts i ∙ a.artifacts i;
  snapshots = λ i. b.snapshots i ∙ a.snapshots i;
  events = b.events ∙ a.events;
  edges = b.edges ∙ a.edges;
}

-- What is read at another key than the one written to.
module _ {V : Type 0} (k q : String) (other : k ≢ q) where
  other_key : (v : V) (m : Map String V) → get q (insert k v m) ≡ get q m
  other_key v m = ground (arith, get-insert k q v m, string_eq.equal_iff k q)

  other_key2 :
      (j i : String) (v : V) (m : Map String (Map String V))
      → get2 q i (insert2 k j v m) ≡ get2 q i m
  other_key2 j i v m = ground (arith, get2-insert2 k q j i v m, string_eq.equal_iff k q)

  other_list :
      (v : V) (m : Map String (List V)) → or_empty (get q (push k v m)) ≡ or_empty (get q m)
  other_list v m = ground (arith, list-push k q v m, string_eq.equal_iff k q)

module _ (s : MemoryState) (q : RunId) where
  pub parts :
      (t : MemoryState)
      → get q t.runs ≡ get q s.runs
      → ((i : SpanId) → span_at t q i ≡ span_at s q i)
      → ((i : ArtifactId) → artifact_at t q i ≡ artifact_at s q i)
      → ((i : SnapshotId) → snapshot_at t q i ≡ snapshot_at s q i)
      → events_of t q ≡ events_of s q
      → edges_of t q ≡ edges_of s q
      → SameRun s t q
  parts t run spans artifacts snapshots events edges = record {
    run = run;
    spans = spans;
    artifacts = artifacts;
    snapshots = snapshots;
    events = events;
    edges = edges;
  }

  pub insert_run_same :
      (run : RunRecord) {t : MemoryState}
      → run.run_id ≢ q
      → Runs.insert_run run s ≡ ok t
      → SameRun s t q
  unfolding Runs.insert_run
  insert_run_same run {t} other h =
      let written : record s {
        sequences = insert run.run_id 0 s.sequences;
        runs = insert run.run_id run s.runs;
      }
          ≡ t =
        ground arith in
      subst (λ u. SameRun s u q) written
        (parts _ (other_key run.run_id q other run s.runs) (λ i. refl) (λ i. refl) (λ i. refl) refl
          refl)

  pub update_run_same :
      (run : RunRecord) {t : MemoryState}
      → run.run_id ≢ q
      → Runs.update_run run s ≡ ok t
      → SameRun s t q
  unfolding Runs.update_run ensure_run_exists
  update_run_same run {t} other h =
      let written : record s { runs = insert run.run_id run s.runs } ≡ t = ground arith in
      subst (λ u. SameRun s u q) written
        (parts _ (other_key run.run_id q other run s.runs) (λ i. refl) (λ i. refl) (λ i. refl) refl
          refl)

  pub upsert_span_same :
      (span : SpanRecord) {t : MemoryState}
      → span.run_id ≢ q
      → Records.upsert_span span s ≡ ok t
      → SameRun s t q
  unfolding Records.upsert_span ensure_run_exists
  upsert_span_same span {t} other h =
      let written : record s { spans = insert2 span.run_id span.span_id span s.spans } ≡ t =
        ground arith in
      subst (λ u. SameRun s u q) written
        (parts _ refl (λ i. other_key2 span.run_id q other span.span_id i span s.spans) (λ i. refl)
          (λ i. refl) refl refl)

  pub insert_event_same :
      (event : EventRecord) {t : MemoryState}
      → event.run_id ≢ q
      → Records.insert_event event s ≡ ok t
      → SameRun s t q
  unfolding Records.insert_event ensure_run_exists
  insert_event_same event {t} other h =
      let written : record s { events = push event.run_id event s.events } ≡ t = ground arith in
      subst (λ u. SameRun s u q) written
        (parts _ refl (λ i. refl) (λ i. refl) (λ i. refl)
          (other_list event.run_id q other event s.events) refl)

  pub insert_edge_same :
      (edge : SpanEdgeRecord) {t : MemoryState}
      → edge.run_id ≢ q
      → Records.insert_edge edge s ≡ ok t
      → SameRun s t q
  unfolding Records.insert_edge ensure_run_exists
  insert_edge_same edge {t} other h =
      let written : record s { edges = push edge.run_id edge s.edges } ≡ t = ground arith in
      subst (λ u. SameRun s u q) written
        (parts _ refl (λ i. refl) (λ i. refl) (λ i. refl) refl
          (other_list edge.run_id q other edge s.edges))

  pub insert_artifact_same :
      (env : Env) (artifact : ArtifactRecord) {t : MemoryState}
      → artifact.run_id ≢ q
      → Artifacts.insert_artifact env artifact s ≡ ok t
      → SameRun s t q
  unfolding Artifacts.insert_artifact ensure_run_exists
  insert_artifact_same env artifact {t} other h =
      let written : record s {
        artifacts = insert2 artifact.run_id artifact.artifact_id artifact s.artifacts;
      }
          ≡ t =
        ground arith in
      subst (λ u. SameRun s u q) written
        (parts _ refl (λ i. refl)
          (λ i. other_key2 artifact.run_id q other artifact.artifact_id i artifact s.artifacts)
          (λ i. refl) refl refl)

  pub insert_snapshot_same :
      (env : Env) (snapshot : SnapshotRecord) {t : MemoryState}
      → snapshot.run_id ≢ q
      → Records.insert_snapshot env snapshot s ≡ ok t
      → SameRun s t q
  unfolding Records.insert_snapshot ensure_run_exists
  insert_snapshot_same env snapshot {t} other h =
      let written : record s {
        snapshots = insert2 snapshot.run_id snapshot.snapshot_id snapshot s.snapshots;
      }
          ≡ t =
        ground arith in
      subst (λ u. SameRun s u q) written
        (parts _ refl (λ i. refl) (λ i. refl)
          (λ i. other_key2 snapshot.run_id q other snapshot.snapshot_id i snapshot s.snapshots) refl
          refl)

  pub insert_branch_same :
      (env : Env) (branch : BranchRecord) {t : MemoryState}
      → Branches.insert_branch env branch s ≡ ok t
      → SameRun s t q
  unfolding Branches.insert_branch
  insert_branch_same env branch {t} h =
      let written : record s { branches = insert branch.branch_id branch s.branches } ≡ t =
        ground arith in
      subst (λ u. SameRun s u q) written
        (parts _ refl (λ i. refl) (λ i. refl) (λ i. refl) refl refl)

  pub insert_replay_job_same :
      (job : ReplayJobRecord) {t : MemoryState}
      → Branches.insert_replay_job job s ≡ ok t
      → SameRun s t q
  unfolding Branches.insert_replay_job
  insert_replay_job_same job {t} h =
      let written : record s { replay_jobs = insert job.replay_job_id job s.replay_jobs } ≡ t =
        ground arith in
      subst (λ u. SameRun s u q) written
        (parts _ refl (λ i. refl) (λ i. refl) (λ i. refl) refl refl)

  pub update_replay_job_same :
      (job : ReplayJobRecord) {t : MemoryState}
      → Branches.update_replay_job job s ≡ ok t
      → SameRun s t q
  unfolding Branches.update_replay_job
  update_replay_job_same job {t} h =
      let written : record s { replay_jobs = insert job.replay_job_id job s.replay_jobs } ≡ t =
        ground arith in
      subst (λ u. SameRun s u q) written
        (parts _ refl (λ i. refl) (λ i. refl) (λ i. refl) refl refl)
