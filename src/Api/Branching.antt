-- ===== src/Api/Branching.antt =====
-- `create_branch` of crates/api/src/lib.rs: a fork and its comparison with the source, which leave
-- nothing of the new run behind where the comparison fails.
pub mod Kept
use replay_kit.Common.{String, Bool, true, Option, none, some, ◌≡◌, refl}
use replay_kit.Common.Action.{Action, continue_with}
use replay_kit.Common.Eq.{string_eq, pair_eq}
use replay_kit.Common.Map.{Map, get, remove, get-remove}
use replay_kit.Common.Result.{Result, ok, err, map_err}
use replay_kit.Diff.Runs.{diff_runs}
use replay_kit.Model.Records.{BranchRequest, RunDiffRecord}
use replay_kit.Replay.Engine.{Machine, Session, ExecutorRegistry, ReplayError}
use replay_kit.Replay.Fork.{BranchExecution, execute_fork}
use replay_kit.Storage.Cleanup.{cleanup_branch_execution, forget_run}
use replay_kit.Storage.Error.{StorageError, Checked}
use replay_kit.Storage.State.{MemoryState, InMemoryStorage}

pub data ApiError : Type 0 where
  replay : ReplayError → ApiError
  diff : StorageError → ApiError

module _ {W : Type 0} (machine : Machine W) (registry : ExecutorRegistry W)
    (keep_sandbox : Bool) where
  -- The records of the branch are removed where the comparison failed. The in-memory store's removal
  -- does not fail.
  abbrev pub after_diff :
      BranchExecution
      → Checked RunDiffRecord × MemoryState
      → Session W
      → Result ApiError BranchExecution × Session W
  after_diff execution (ok d, state) s =
      (ok execution, record s { store = record s.store { state = state } })
  after_diff execution (err e, state) s = (
    err (ApiError.diff e),
    record s {
      store =
          cleanup_branch_execution execution.branch.target_run_id execution.branch.branch_id
            execution.replay_job.replay_job_id (record s.store { state = state });
    },
  )

  unfoldable pub compare_branch : BranchExecution → Action (Session W) ApiError BranchExecution
  compare_branch execution s =
      let branch = execution.branch in
      after_diff execution
        (diff_runs machine.env branch.source_run_id branch.target_run_id branch.created_at
          s.store.state)
        s

  abbrev pub after_fork :
      Result ReplayError BranchExecution × Session W → Result ApiError BranchExecution × Session W
  after_fork (ok execution, s) = compare_branch execution s
  after_fork (err e, s) = (err (ApiError.replay e), s)

  unfoldable pub create_branch : BranchRequest → Action (Session W) ApiError BranchExecution
  create_branch request s = after_fork (execute_fork machine registry keep_sandbox request s)
