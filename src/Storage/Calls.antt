-- ===== src/Storage/Calls.antt =====
-- The calls of the `Storage` trait that write, as one step of the in-memory store. A call that
-- fails leaves the records as they were; a failed `store_artifact_with_content` leaves its blob.
use replay_kit.Common.{List, [], ◌∷◌}
use replay_kit.Common.Result.{ok, err}
use replay_kit.Model.Enums.{IdKind}
use replay_kit.Model.Records.{
  RunId, BranchId, ReplayJobId, RunRecord, SpanRecord, EventRecord, ArtifactRecord, SnapshotRecord,
  SpanEdgeRecord, BranchRecord, ReplayJobRecord, RunDiffRecord,
}
use replay_kit.Storage.Artifacts
use replay_kit.Storage.Artifacts.{record_stored}
use replay_kit.Storage.Blob.{Env, Bytes}
use replay_kit.Storage.Branches
use replay_kit.Storage.Cleanup
use replay_kit.Storage.Error.{Checked}
use replay_kit.Storage.Records
use replay_kit.Storage.Runs
use replay_kit.Storage.State.{MemoryState, InMemoryStorage}

pub data Call : Type 0 where
  allocate_id : IdKind → Call
  next_sequence : RunId → Call
  insert_run : RunRecord → Call
  update_run : RunRecord → Call
  upsert_span : SpanRecord → Call
  insert_event : EventRecord → Call
  insert_artifact : ArtifactRecord → Call
  insert_snapshot : SnapshotRecord → Call
  insert_edge : SpanEdgeRecord → Call
  insert_branch : BranchRecord → Call
  insert_replay_job : ReplayJobRecord → Call
  update_replay_job : ReplayJobRecord → Call
  insert_diff : RunDiffRecord → Call
  store_artifact_with_content : ArtifactRecord → Bytes → Call
  cleanup_branch_execution : RunId → BranchId → ReplayJobId → Call

-- The state after a write that returned a new one or failed.
abbrev pub commit : InMemoryStorage → Checked MemoryState → InMemoryStorage
commit st (ok s) = record st { state = s }
commit st (err e) = st

abbrev pub commit_second :
    {A : Type 0} → InMemoryStorage → Checked (A × MemoryState) → InMemoryStorage
commit_second st (ok (a, s)) = record st { state = s }
commit_second st (err e) = st

module _ (env : Env) where
  unfoldable pub after : Call → InMemoryStorage → InMemoryStorage
  after (allocate_id kind) st = record st { state = (Runs.allocate_id kind st.state).1 }
  after (next_sequence r) st = commit_second st (Runs.next_sequence r st.state)
  after (insert_run run) st = commit st (Runs.insert_run run st.state)
  after (update_run run) st = commit st (Runs.update_run run st.state)
  after (upsert_span span) st = commit st (Records.upsert_span span st.state)
  after (insert_event event) st = commit st (Records.insert_event event st.state)
  after (insert_artifact a) st = commit st (Artifacts.insert_artifact env a st.state)
  after (insert_snapshot snapshot) st = commit st (Records.insert_snapshot env snapshot st.state)
  after (insert_edge edge) st = commit st (Records.insert_edge edge st.state)
  after (insert_branch branch) st = commit st (Branches.insert_branch env branch st.state)
  after (insert_replay_job job) st = commit st (Branches.insert_replay_job job st.state)
  after (update_replay_job job) st = commit st (Branches.update_replay_job job st.state)
  after (insert_diff diff) st = commit st (Branches.insert_diff diff st.state)
  after (store_artifact_with_content a content) st =
      (Artifacts.store_artifact_with_content env a content st).1
  after (cleanup_branch_execution target branch_id job_id) st =
      Cleanup.cleanup_branch_execution target branch_id job_id st

  -- The state after calls made one after another.
  unfoldable pub run_calls : List Call → InMemoryStorage → InMemoryStorage
  unfolding after
  run_calls [] st = st
  run_calls (call ∷ calls) st = run_calls calls (after call st)
