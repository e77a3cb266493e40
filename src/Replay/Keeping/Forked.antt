-- ===== src/Replay/Keeping/Forked.antt =====
-- `execute_fork` keeps what its calls of the store keep.
use replay_kit.Common.{ℕ, Bool, Option, none, some, List, String, ◌≡◌, refl}
use replay_kit.Common.Action.{Keeps, keeps-bind, keeps-then, keeps-learn}
use replay_kit.Common.Result.{Result}
use replay_kit.Model.Records.{RunId, BranchId, ReplayJobId, ArtifactId, BranchRequest}
use replay_kit.Replay.Containers.{replay_spans}
use replay_kit.Replay.Engine.{Machine, Session, ExecutorRegistry, ReplayError}
use replay_kit.Replay.Fork.{
  SourceRecords, begin_line, start_line, cleaned, replay_in, read_source, fork_records, replay_fork,
  finish_fork, finished_run, fork_artifact,
}
use replay_kit.Replay.Keeping.{Survives}
use replay_kit.Replay.Keeping.Derived.{replay_spans-Keeps}
use replay_kit.Replay.Keeping.Line.{
  InStore, calls-Keeps, read-Keeps, start-Keeps, start_detached-Keeps,
}
use replay_kit.Replay.Keeping.Spans.{looks_done}
use replay_kit.Replay.Keeping.Writes.{
  new_id-Keeps, update_run-Keeps, insert_artifact-Keeps, insert_branch-Keeps,
  insert_replay_job-Keeps, update_replay_job-Keeps, copy_run_data-Keeps,
}
use replay_kit.Replay.Plan.{PlanState}
use replay_kit.Replay.Respan.{Progress}
use replay_kit.Replay.Sandbox.{ReplayWorkspace}
use replay_kit.Replay.Timeline.{Timeline, new_timeline}
use replay_kit.Storage.State.{InMemoryStorage, get_run}
use replay_kit.Workspace.Archive.{WorkspaceArchive}
use replay_kit.Workspace.Points.{WorkspacePoint}

module _ {W : Type 0} (P : InMemoryStorage → Type 0) (machine : Machine W)
    (registry : ExecutorRegistry W) (keep_sandbox : Bool) where
  pub read_source-Keeps :
      (source : RunId) → Keeps (InStore P) (read_source machine registry keep_sandbox source)
  unfolding read_source
  read_source-Keeps source = keeps-bind (InStore P) _ _ (read-Keeps P _) (λ run.
      keeps-bind (InStore P) _ _ (read-Keeps P _) (λ artifacts.
        keeps-bind (InStore P) _ _ (read-Keeps P _) (λ snapshots.
          keeps-bind (InStore P) _ _ (read-Keeps P _)
            (λ edges. keeps-bind (InStore P) _ _ (read-Keeps P _) (λ events. read-Keeps P _)))))

  begin_line-Keeps :
      (points : List WorkspacePoint)
      → Keeps (InStore P) (begin_line machine registry keep_sandbox points)
  unfolding Keeps
  begin_line-Keeps points s p = p

  -- The removal of the sandbox leaves the store as it is.
  cleaned-Keeps :
      {A : Type 0} (sandbox : String) (r : Result ReplayError A × Session W)
      → P r.1.store
      → P (cleaned machine registry keep_sandbox sandbox r).1.store
  cleaned-Keeps sandbox (r, s) p = p

  module _ (request : BranchRequest) (state : PlanState) (r : RunId)
      (survives : Survives P machine.env r) where
    pub fork_records-Keeps :
        (source : SourceRecords) (branch_id : BranchId) (replay_job_id : ReplayJobId)
        → Keeps (InStore P) (
            fork_records machine registry keep_sandbox request state source r branch_id
              replay_job_id)
    unfolding fork_records fork_artifact
    fork_records-Keeps source branch_id replay_job_id =
        keeps-then (InStore P) _ _ (calls-Keeps P W _ (insert_replay_job-Keeps P survives _)) (
          keeps-bind (InStore P) _ _ (read-Keeps P _) (λ base.
            keeps-then (InStore P) _ _
              (calls-Keeps P W _ (copy_run_data-Keeps P survives _ _ _ _ _))
              (keeps-bind (InStore P) _ _ (calls-Keeps P W _ (new_id-Keeps P survives _))
                (λ patch_id.
                  keeps-then (InStore P) _ _
                    (calls-Keeps P W _ (insert_artifact-Keeps P survives _ refl))
                    (keeps-then (InStore P) _ _
                      (calls-Keeps P W _ (insert_branch-Keeps P survives _)) (read-Keeps P _))))))

    start_line-Keeps :
        (line : Timeline) (base : Option ℕ) (override_archive : Option WorkspaceArchive)
        → Survives P machine.env line.target_run_id
        → Keeps (InStore P) (start_line machine registry keep_sandbox line base override_archive)
    start_line-Keeps line none override_archive h =
        start_detached-Keeps P machine line h override_archive
    start_line-Keeps line (some base) override_archive h =
        start-Keeps P machine line h base override_archive

    replay_in-Keeps :
        (patch_id : ArtifactId) (workspace : ReplayWorkspace) (line : Timeline)
        → Survives P machine.env line.target_run_id
        → Keeps
            (InStore P)
            (replay_in machine registry keep_sandbox request state r patch_id workspace line)
    unfolding replay_in Keeps
    replay_in-Keeps patch_id workspace line h s p =
        cleaned-Keeps {A = Progress} workspace.sandbox
          (replay_spans machine registry request state r patch_id workspace line line.created_at s)
          (replay_spans-Keeps P machine registry request state r patch_id workspace line
            line.created_at survives h s p)

    pub replay_fork-Keeps :
        (patch_id : ArtifactId) (sandbox : String)
        → Keeps
            (InStore P)
            (replay_fork machine registry keep_sandbox request state r patch_id sandbox)
    unfolding replay_fork new_timeline
    replay_fork-Keeps patch_id sandbox = keeps-then (InStore P) _ _ (begin_line-Keeps _) (
        keeps-then (InStore P) _ _ (start_line-Keeps _ _ state.override_archive survives)
          (replay_in-Keeps patch_id _ _ survives))

    pub finish_fork-Keeps :
        (branch_id : BranchId) (replay_job_id : ReplayJobId) (sandbox : String) (counts : Progress)
        → Keeps (InStore P) (
            finish_fork machine registry keep_sandbox request state r branch_id replay_job_id
              sandbox counts)
    unfolding finish_fork finished_run
    finish_fork-Keeps branch_id replay_job_id sandbox counts =
        keeps-bind (InStore P) _ _ (read-Keeps P _) (λ spans.
          keeps-learn (InStore P) _ _ (read-Keeps P _) (λ started s t p e.
            let own : started.run_id ≡ r =
              survives.run_key s.store started p (looks_done (get_run r) started s t e) in
            keeps-bind (InStore P) _ _ (read-Keeps P _) (λ artifacts.
              keeps-then (InStore P) _ _ (calls-Keeps P W _ (update_run-Keeps P survives _ own)) (
                keeps-bind (InStore P) _ _ (read-Keeps P _) (λ running.
                  keeps-then (InStore P) _ _ (calls-Keeps P W _ (insert_branch-Keeps P survives _))
                    (keeps-bind (InStore P) _ _ (read-Keeps P _) (λ job.
                      keeps-then (InStore P) _ _
                        (calls-Keeps P W _ (update_replay_job-Keeps P survives _))
                        (read-Keeps P _))))))))
