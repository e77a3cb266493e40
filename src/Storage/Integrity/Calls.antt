-- ===== src/Storage/Integrity/Calls.antt =====
-- Whatever is called, and whether it succeeds or fails, the store keeps its integrity.
use replay_kit.Common.{◌≡◌, refl, List, [], ◌∷◌}
use replay_kit.Common.Eq.{string_eq, string_ord, pair_eq, pair_ord}
use replay_kit.Common.Map.{get-nil}
use replay_kit.Common.Result.{ok, err}
use replay_kit.Common.Table.{get2-nil}
use replay_kit.Model.Records.{
  RunRecord, SpanRecord, ArtifactRecord, SnapshotRecord, EventRecord, SpanEdgeRecord, RunId,
  BranchId, ReplayJobId, RunDiffRecord,
}
use replay_kit.Storage.Artifacts
use replay_kit.Storage.Artifacts.{record_stored, with_blob}
use replay_kit.Storage.Blob.{Env, Bytes, store}
use replay_kit.Storage.Branches
use replay_kit.Storage.Calls.{
  Call, after, run_calls, commit, commit_second, allocate_id, next_sequence, insert_run, update_run,
  upsert_span, insert_event, insert_artifact, insert_snapshot, insert_edge, insert_branch,
  insert_replay_job, update_replay_job, insert_diff, store_artifact_with_content,
  cleanup_branch_execution,
}
use replay_kit.Storage.Cleanup
use replay_kit.Storage.Error.{Checked}
use replay_kit.Storage.Records
use replay_kit.Storage.Runs
use replay_kit.Storage.State.{MemoryState, InMemoryStorage, empty_state}
use replay_kit.Storage.Integrity.{IsWellFormed}
use replay_kit.Storage.Integrity.Artifacts.{
  insert_artifact-IsWellFormed, insert_snapshot-IsWellFormed,
}
use replay_kit.Storage.Integrity.Events.{insert_event-IsWellFormed, insert_edge-IsWellFormed}
use replay_kit.Storage.Integrity.Forget.{forget_run-IsWellFormed}
use replay_kit.Storage.Integrity.Spans.{
  insert_run-IsWellFormed, update_run-IsWellFormed, upsert_span-IsWellFormed,
}
use replay_kit.Storage.Integrity.Aside.{
  insert_branch-IsWellFormed, insert_replay_job-IsWellFormed, update_replay_job-IsWellFormed,
  insert_diff-IsWellFormed, allocate_id-IsWellFormed, next_sequence-IsWellFormed,
}

-- A write that keeps the integrity when it succeeds keeps it in any case.
commit-IsWellFormed :
    (st : InMemoryStorage) (write : Checked MemoryState)
    → ((t : MemoryState) → write ≡ ok t → IsWellFormed t)
    → IsWellFormed st.state
    → IsWellFormed (commit st write).state
commit-IsWellFormed st (ok t) keep w = keep t refl
commit-IsWellFormed st (err e) keep w = w

commit_second-IsWellFormed :
    {A : Type 0} (st : InMemoryStorage) (write : Checked (A × MemoryState))
    → ((a : A) (t : MemoryState) → write ≡ ok (a, t) → IsWellFormed t)
    → IsWellFormed st.state
    → IsWellFormed (commit_second st write).state
commit_second-IsWellFormed st (ok (a, t)) keep w = keep a t refl
commit_second-IsWellFormed st (err e) keep w = w

record_stored-IsWellFormed :
    (env : Env) (artifact : ArtifactRecord) (st : InMemoryStorage) (write : Checked MemoryState)
    → ((t : MemoryState) → write ≡ ok t → IsWellFormed t)
    → IsWellFormed st.state
    → IsWellFormed (record_stored env artifact st write).1.state
unfolding record_stored
record_stored-IsWellFormed env artifact st (ok t) keep w = keep t refl
record_stored-IsWellFormed env artifact st (err e) keep w = w

module _ (env : Env) (st : InMemoryStorage) (w : IsWellFormed st.state) where
  store-IsWellFormed :
      (artifact : ArtifactRecord) (content : Bytes)
      → IsWellFormed (Artifacts.store_artifact_with_content env artifact content st).1.state
  unfolding Artifacts.store_artifact_with_content
  store-IsWellFormed artifact content =
      let (blob_ref, blobs) = store env content st.blobs in
      let stored = with_blob env artifact blob_ref in
      record_stored-IsWellFormed env stored (record st { blobs = blobs })
        (Artifacts.insert_artifact env stored st.state)
        (λ t h. insert_artifact-IsWellFormed env st.state stored h w) w

  cleanup-IsWellFormed :
      (target : RunId) (branch_id : BranchId) (job_id : ReplayJobId)
      → IsWellFormed (Cleanup.cleanup_branch_execution target branch_id job_id st).state
  unfolding Cleanup.cleanup_branch_execution
  cleanup-IsWellFormed target branch_id job_id =
      forget_run-IsWellFormed target branch_id job_id st.state w

  -- Every call of the storage interface that writes, whether it succeeds or fails, keeps the
  -- records of a well-formed store well formed: each lies under its own keys in a run that exists, the parent of a span is
  -- another span of the run, the spans and artifacts that a record names are there, a snapshot's
  -- artifact belongs to the snapshot's span, events of a run that share an id are the same, and the runs of
  -- every diff exist.
  pub after-IsWellFormed : (call : Call) → IsWellFormed (after env call st).state
  unfolding after
  after-IsWellFormed (allocate_id kind) = allocate_id-IsWellFormed st.state w kind
  after-IsWellFormed (next_sequence r) =
      commit_second-IsWellFormed st (Runs.next_sequence r st.state)
        (next_sequence-IsWellFormed st.state w r) w
  after-IsWellFormed (insert_run run) =
      commit-IsWellFormed st (Runs.insert_run run st.state)
        (λ t h. insert_run-IsWellFormed st.state run h w) w
  after-IsWellFormed (update_run run) =
      commit-IsWellFormed st (Runs.update_run run st.state)
        (λ t h. update_run-IsWellFormed st.state run h w) w
  after-IsWellFormed (upsert_span span) =
      commit-IsWellFormed st (Records.upsert_span span st.state)
        (λ t h. upsert_span-IsWellFormed st.state span h w) w
  after-IsWellFormed (insert_event event) =
      commit-IsWellFormed st (Records.insert_event event st.state)
        (λ t h. insert_event-IsWellFormed st.state event h w) w
  after-IsWellFormed (insert_artifact artifact) =
      commit-IsWellFormed st (Artifacts.insert_artifact env artifact st.state)
        (λ t h. insert_artifact-IsWellFormed env st.state artifact h w) w
  after-IsWellFormed (insert_snapshot snapshot) =
      commit-IsWellFormed st (Records.insert_snapshot env snapshot st.state)
        (λ t h. insert_snapshot-IsWellFormed env st.state snapshot h w) w
  after-IsWellFormed (insert_edge edge) =
      commit-IsWellFormed st (Records.insert_edge edge st.state)
        (λ t h. insert_edge-IsWellFormed st.state edge h w) w
  after-IsWellFormed (insert_branch branch) =
      commit-IsWellFormed st (Branches.insert_branch env branch st.state)
        (insert_branch-IsWellFormed st.state w env branch) w
  after-IsWellFormed (insert_replay_job job) =
      commit-IsWellFormed st (Branches.insert_replay_job job st.state)
        (insert_replay_job-IsWellFormed st.state w job) w
  after-IsWellFormed (update_replay_job job) =
      commit-IsWellFormed st (Branches.update_replay_job job st.state)
        (update_replay_job-IsWellFormed st.state w job) w
  after-IsWellFormed (insert_diff diff) =
      commit-IsWellFormed st (Branches.insert_diff diff st.state)
        (insert_diff-IsWellFormed st.state w diff) w
  after-IsWellFormed (store_artifact_with_content artifact content) =
      store-IsWellFormed artifact content
  after-IsWellFormed (cleanup_branch_execution target branch_id job_id) =
      cleanup-IsWellFormed target branch_id job_id

-- The store starts out well formed.
pub empty_state-IsWellFormed : IsWellFormed empty_state
empty_state-IsWellFormed = record {
  runs = λ r x h. cc (get-nil {V = RunRecord} r);
  spans = λ r i x h. cc (get2-nil {V = SpanRecord} r i);
  artifacts = λ r i x h. cc (get2-nil {V = ArtifactRecord} r i);
  snapshots = λ r i x h. cc (get2-nil {V = SnapshotRecord} r i);
  events = λ r x h. absurd (rw (get-nil {V = List EventRecord} r) at h);
  distinct_events = λ r x y p q e. absurd (rw (get-nil {V = List EventRecord} r) at p);
  edges = λ r x h. absurd (rw (get-nil {V = List SpanEdgeRecord} r) at h);
  diffs = λ p q x h. cc (get-nil {K = RunId × RunId} {V = RunDiffRecord} (p, q));
}

-- Whatever calls are made of a well-formed store, one after another, it is well formed after them.
pub run_calls-IsWellFormed :
    (env : Env) (calls : List Call) (st : InMemoryStorage)
    → IsWellFormed st.state
    → IsWellFormed (run_calls env calls st).state
unfolding run_calls
run_calls-IsWellFormed env [] st w = w
run_calls-IsWellFormed env (call ∷ calls) st w =
    run_calls-IsWellFormed env calls (after env call st) (after-IsWellFormed env st w call)
