-- ===== src/Storage/Branches.antt =====
-- Branches, replay jobs and diffs: `insert_branch` to `get_diff` of `InMemoryStorage`.
use replay_kit.Common.{Option, none, some, List}
use replay_kit.Common.Eq.{string_eq, string_ord, pair_eq, pair_ord, negate}
use replay_kit.Common.Map.{get, insert, contains_key, values}
use replay_kit.Common.Result.{ok, guard, ok_or, ◌>>=◌, ◌>>◌}
use replay_kit.Model.Records.{
  RunId, BranchId, ReplayJobId, BranchRecord, ReplayJobRecord, RunDiffRecord,
}
use replay_kit.Storage.Blob.{Env}
use replay_kit.Storage.Error.{
  Checked, conflict, not_found, branch_not_found, job_not_found, job_exists, diff_not_found,
}
use replay_kit.Storage.State.{MemoryState, ensure_run_exists, ensure_span_exists, get_artifact}

unfoldable pub insert_branch : Env → BranchRecord → MemoryState → Checked MemoryState
insert_branch env branch s = do
  ensure_run_exists s branch.source_run_id
  ensure_run_exists s branch.target_run_id
  ensure_span_exists s branch.source_run_id branch.fork_span_id
  get_artifact env branch.target_run_id branch.patch_manifest_artifact_id s >>= λ _.
      ok (record s { branches = insert branch.branch_id branch s.branches })

unfoldable pub get_branch : BranchId → MemoryState → Checked BranchRecord
get_branch branch_id s = ok_or (get branch_id s.branches) (not_found (branch_not_found branch_id))

abbrev pub list_branches : MemoryState → List BranchRecord
list_branches s = values s.branches

unfoldable pub check_target : MemoryState → Option RunId → Checked (Unit {0})
check_target s none = ok tt
check_target s (some run_id) = ensure_run_exists s run_id

unfoldable pub insert_replay_job : ReplayJobRecord → MemoryState → Checked MemoryState
insert_replay_job job s = do
  ensure_run_exists s job.source_run_id
  check_target s job.target_run_id
  guard (negate (contains_key job.replay_job_id s.replay_jobs))
      (conflict (job_exists job.replay_job_id))
  ok (record s { replay_jobs = insert job.replay_job_id job s.replay_jobs })

unfoldable pub update_replay_job : ReplayJobRecord → MemoryState → Checked MemoryState
update_replay_job job s = do
  ensure_run_exists s job.source_run_id
  check_target s job.target_run_id
  guard (contains_key job.replay_job_id s.replay_jobs) (not_found (job_not_found job.replay_job_id))
  ok (record s { replay_jobs = insert job.replay_job_id job s.replay_jobs })

unfoldable pub get_replay_job : ReplayJobId → MemoryState → Checked ReplayJobRecord
get_replay_job job_id s = ok_or (get job_id s.replay_jobs) (not_found (job_not_found job_id))

unfoldable pub insert_diff : RunDiffRecord → MemoryState → Checked MemoryState
insert_diff diff s = do
  ensure_run_exists s diff.source_run_id
  ensure_run_exists s diff.target_run_id
  ok (record s { diffs = insert (diff.source_run_id, diff.target_run_id) diff s.diffs })

unfoldable pub get_diff : RunId → RunId → MemoryState → Checked RunDiffRecord
get_diff source target s =
    ok_or (get (source, target) s.diffs) (not_found (diff_not_found source target))
