-- ===== src/Replay/Keeping.antt =====
-- What a replay keeps of the store: whatever survives the calls that it makes, which are about its run.
pub mod Writes
pub mod Line
pub mod Spans
pub mod Derived
pub mod Forked
pub mod Whole
use replay_kit.Common.{◌≡◌}
use replay_kit.Common.Result.{ok}
use replay_kit.Model.Records.{RunId, SpanId, RunRecord, SpanRecord}
use replay_kit.Storage.Blob.{Env}
use replay_kit.Storage.Calls.{
  Call, after, allocate_id, next_sequence, insert_run, update_run, upsert_span, insert_event,
  insert_artifact, insert_snapshot, insert_edge, insert_branch, insert_replay_job,
  update_replay_job, insert_diff, store_artifact_with_content, cleanup_branch_execution,
}
use replay_kit.Storage.State.{InMemoryStorage, get_span, get_run}

-- The calls that a replay makes once its run is there: the records that it writes are of the run.
abbrev pub IsOnRun : RunId → Call → Type 0
IsOnRun r (allocate_id kind) = Unit
IsOnRun r (update_run run) = run.run_id ≡ r
IsOnRun r (upsert_span span) = span.run_id ≡ r
IsOnRun r (insert_event event) = event.run_id ≡ r
IsOnRun r (insert_artifact artifact) = artifact.run_id ≡ r
IsOnRun r (insert_snapshot snapshot) = snapshot.run_id ≡ r
IsOnRun r (insert_edge edge) = edge.run_id ≡ r
IsOnRun r (insert_branch branch) = Unit
IsOnRun r (insert_replay_job job) = Unit
IsOnRun r (update_replay_job job) = Unit
IsOnRun r (store_artifact_with_content artifact content) = artifact.run_id ≡ r
IsOnRun r _ = ⊥

-- A property that every such call keeps, and that makes the records of the run its own.
pub record Survives (P : InMemoryStorage → Type 0) (env : Env) (r : RunId) : Type 0 where
  pub call : (c : Call) (st : InMemoryStorage) → IsOnRun r c → P st → P (after env c st)
  pub span_key :
      (st : InMemoryStorage) (i : SpanId) (x : SpanRecord)
      → P st
      → get_span r i st.state ≡ ok x
      → x.run_id ≡ r
  pub run_key :
      (st : InMemoryStorage) (x : RunRecord) → P st → get_run r st.state ≡ ok x → x.run_id ≡ r
