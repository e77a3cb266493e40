-- ===== src/Api/Branching/Kept.antt =====
-- What the creation of a branch keeps: the integrity of the store, and no run whose comparison failed.
use replay_kit.Common.{ℕ, Bool, String, none, ◌≡◌, refl, ap, arith}
use replay_kit.Common.Action.{update, Keeps, keeps-bind, keeps-then, keeps-read, write, after_write}
use replay_kit.Common.Eq.{string_eq, pair_eq}
use replay_kit.Common.Map.{Map, get, remove, get-remove, retain, get-retain}
use replay_kit.Common.Result.{Result, ok, err}
use replay_kit.Common.Table.{get2, get2-remove}
use replay_kit.Api.Branching.{ApiError, after_diff, compare_branch, after_fork, create_branch}
use replay_kit.Diff.Runs.{diff_runs}
use replay_kit.Model.Enums.{IdKind}
use replay_kit.Model.Records.{RunId, SpanId, ArtifactId, SnapshotId, BranchRequest, RunDiffRecord}
use replay_kit.Replay.Engine.{Machine, Session, ExecutorRegistry, ReplayError}
use replay_kit.Replay.Fork.{BranchExecution, execute_fork}
use replay_kit.Replay.Isolated.{execute_fork-IsWellFormed}
use replay_kit.Storage.Blob.{Env}
use replay_kit.Storage.Branches.{insert_diff}
use replay_kit.Storage.Cleanup.{cleanup_branch_execution, forget_run, spares}
use replay_kit.Storage.Error.{StorageError, Checked}
use replay_kit.Storage.Integrity.{IsWellFormed}
use replay_kit.Storage.Integrity.Aside.{allocate_id-IsWellFormed, insert_diff-IsWellFormed}
use replay_kit.Storage.Integrity.Forget.{forget_run-IsWellFormed}
use replay_kit.Storage.Runs.{allocate_id}
use replay_kit.Storage.State.{MemoryState, InMemoryStorage, span_at, artifact_at, snapshot_at}

write_diff-Keeps :
    (diff : RunDiffRecord) → Keeps IsWellFormed (write {E = StorageError} (insert_diff diff))
unfolding Keeps
write_diff-Keeps diff s w = kept (insert_diff diff s) refl
  where
    kept : (r : Checked MemoryState) → insert_diff diff s ≡ r → IsWellFormed (after_write r s).1
    kept (ok t) h = insert_diff-IsWellFormed s w diff t h
    kept (err e) h = w

diff_id-Keeps : Keeps IsWellFormed {E = StorageError} (update (allocate_id IdKind.diff))
unfolding Keeps
diff_id-Keeps s w = allocate_id-IsWellFormed s w IdKind.diff

diff_runs-Keeps :
    (env : Env) (source target : RunId) (at : ℕ)
    → Keeps IsWellFormed (diff_runs env source target at)
unfolding diff_runs
diff_runs-Keeps env source target at =
    let P : MemoryState → Type 0 = IsWellFormed in
    keeps-bind P _ _ (keeps-read P _) (λ a. keeps-bind P _ _ (keeps-read P _) (λ b.
      keeps-bind P _ _ (keeps-read P _) (λ c. keeps-bind P _ _ (keeps-read P _) (λ d.
        keeps-bind P _ _ (keeps-read P _) (λ e. keeps-bind P _ _ (keeps-read P _) (λ f.
          keeps-bind P _ _ diff_id-Keeps
            (λ id. keeps-then P _ _ (write_diff-Keeps _) (keeps-read P _))))))))

module _ {W : Type 0} (machine : Machine W) (registry : ExecutorRegistry W)
    (keep_sandbox : Bool) where
  after_diff-IsWellFormed :
      (execution : BranchExecution) (r : Checked RunDiffRecord × MemoryState) (s : Session W)
      → IsWellFormed r.1
      → IsWellFormed (after_diff machine registry keep_sandbox execution r s).1.store.state
  unfolding cleanup_branch_execution
  after_diff-IsWellFormed execution (ok d, state) s w = w
  after_diff-IsWellFormed execution (err e, state) s w =
      forget_run-IsWellFormed execution.branch.target_run_id execution.branch.branch_id
        execution.replay_job.replay_job_id state w

  after_fork-IsWellFormed :
      (r : Result ReplayError BranchExecution × Session W)
      → IsWellFormed r.1.store.state
      → IsWellFormed (after_fork machine registry keep_sandbox r).1.store.state
  unfolding compare_branch Keeps
  after_fork-IsWellFormed (err e, s) w = w
  after_fork-IsWellFormed (ok execution, s) w = after_diff-IsWellFormed execution _ s (
      diff_runs-Keeps machine.env execution.branch.source_run_id execution.branch.target_run_id
        execution.branch.created_at s.store.state w)

  -- If the store is well formed, it is well formed after the creation of a branch, whether the fork
  -- fails, the comparison fails and the branch is taken back, or both succeed.
  pub create_branch-IsWellFormed :
      (request : BranchRequest) (s : Session W)
      → IsWellFormed s.store.state
      → IsWellFormed (create_branch machine registry keep_sandbox request s).1.store.state
  unfolding create_branch
  create_branch-IsWellFormed request s w =
      after_fork-IsWellFormed (execute_fork machine registry keep_sandbox request s)
        (execute_fork-IsWellFormed machine registry keep_sandbox request s w)

module _ (r : RunId) where
  removed : {V : Type 0} (m : Map String V) → get r (remove r m) ≡ none
  removed m = rw (get-remove r r m, (string_eq.equal_iff r r).1 refl) refl

  removed2 :
      {V : Type 0} (i : String) (m : Map String (Map String V)) → get2 r i (remove r m) ≡ none
  removed2 i m = rw (get2-remove r r i m, (string_eq.equal_iff r r).1 refl) refl

  removed_pair :
      {V : Type 0} (x : RunId) (m : Map (RunId × RunId) V)
      → (get (r, x) (retain (spares r) m) ≡ none) × (get (x, r) (retain (spares r) m) ≡ none)
  removed_pair x m = (
    ground (arith, get-retain (spares r) (r, x) m, string_eq.equal_iff r r),
    ground (arith, get-retain (spares r) (x, r) m, string_eq.equal_iff r r),
  )

-- Nothing is recorded of a branch: not the branch and its job, nor of its run the record, the spans,
-- artifacts, snapshots, events and edges, the sequence and the diffs with any other run.
pub record IsForgotten (s : MemoryState) (execution : BranchExecution) : Type 0 where
  pub branch : get execution.branch.branch_id s.branches ≡ none
  pub job : get execution.replay_job.replay_job_id s.replay_jobs ≡ none
  pub run : get execution.branch.target_run_id s.runs ≡ none
  pub spans : (i : SpanId) → span_at s execution.branch.target_run_id i ≡ none
  pub artifacts : (i : ArtifactId) → artifact_at s execution.branch.target_run_id i ≡ none
  pub snapshots : (i : SnapshotId) → snapshot_at s execution.branch.target_run_id i ≡ none
  pub events : get execution.branch.target_run_id s.events ≡ none
  pub edges : get execution.branch.target_run_id s.edges ≡ none
  pub sequence : get execution.branch.target_run_id s.sequences ≡ none
  pub diffs :
      (x : RunId)
      → (get (execution.branch.target_run_id, x) s.diffs ≡ none)
        × (get (x, execution.branch.target_run_id) s.diffs ≡ none)

cleanup-IsForgotten :
    (execution : BranchExecution) (st : InMemoryStorage)
    → IsForgotten
        (cleanup_branch_execution execution.branch.target_run_id execution.branch.branch_id
          execution.replay_job.replay_job_id st).state
        execution
unfolding cleanup_branch_execution forget_run
cleanup-IsForgotten execution st =
    let target : RunId = execution.branch.target_run_id in
    let u : MemoryState = st.state in
    record {
      branch = removed execution.branch.branch_id u.branches;
      job = removed execution.replay_job.replay_job_id u.replay_jobs;
      run = removed target u.runs;
      spans = λ i. removed2 target i u.spans;
      artifacts = λ i. removed2 target i u.artifacts;
      snapshots = λ i. removed2 target i u.snapshots;
      events = removed target u.events;
      edges = removed target u.edges;
      sequence = removed target u.sequences;
      diffs = λ x. removed_pair target x u.diffs;
    }

module _ {W : Type 0} (machine : Machine W) (registry : ExecutorRegistry W)
    (keep_sandbox : Bool) where
  -- The comparison of the runs of a branch, as it finds the store after the fork.
  abbrev pub compared : BranchExecution → Session W → Checked RunDiffRecord × MemoryState
  compared execution u =
      diff_runs machine.env execution.branch.source_run_id execution.branch.target_run_id
        execution.branch.created_at u.store.state

  -- What the creation of a branch comes to, by what the fork came to.
  abbrev pub Outcome :
      Result ReplayError BranchExecution × Session W
      → Result ApiError BranchExecution × Session W
      → Type 0
  Outcome (err e, u) r = r ≡ (err (ApiError.replay e), u)
  Outcome (ok execution, u) (ok created, t) =
      (created ≡ execution) × (d : RunDiffRecord) × (compared execution u ≡ (ok d, t.store.state))
  Outcome (ok execution, u) (err failure, t) =
      (e : StorageError) × (failure ≡ ApiError.diff e)
      × ((compared execution u).0 ≡ err e)
      × IsForgotten t.store.state execution

  pub after_fork-Outcome :
      (r : Result ReplayError BranchExecution × Session W)
      → Outcome r (after_fork machine registry keep_sandbox r)
  unfolding compare_branch
  after_fork-Outcome (err e, u) = refl
  after_fork-Outcome (ok execution, u) = by_diff (compared execution u) refl
    where
      by_diff :
          (c : Checked RunDiffRecord × MemoryState)
          → compared execution u ≡ c
          → Outcome (ok execution, u) (after_diff machine registry keep_sandbox execution c u)
      by_diff (ok d, state) h = (refl, d, h)
      by_diff (err e, state) h = (e, refl, ap (λ c. c.0) h, cleanup-IsForgotten execution _)
