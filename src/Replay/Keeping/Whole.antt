-- ===== src/Replay/Keeping/Whole.antt =====
-- `execute_fork` as a whole keeps what its calls of the store keep, those before its run is there as well.
use replay_kit.Common.{Bool, ◌≡◌, refl, ap}
use replay_kit.Common.Action.{◌>>◌, Keeps, keeps-bind, keeps-learn, write, after_write}
use replay_kit.Common.Result.{ok, err, map_ok, map_err}
use replay_kit.Model.Enums.{IdKind}
use replay_kit.Model.Records.{RunRecord, BranchRequest}
use replay_kit.Replay.Engine.{Machine, Session, ExecutorRegistry, calls, storage}
use replay_kit.Replay.Fork.{branch_run, execute_fork}
use replay_kit.Replay.Keeping.{Survives}
use replay_kit.Replay.Keeping.Forked.{
  read_source-Keeps, fork_records-Keeps, replay_fork-Keeps, finish_fork-Keeps,
}
use replay_kit.Replay.Keeping.Line.{InStore, calls-Keeps, read-Keeps}
use replay_kit.Storage.Blob.{Env}
use replay_kit.Storage.Error.{Checked}
use replay_kit.Storage.Runs.{insert_run}
use replay_kit.Storage.State.{MemoryState, InMemoryStorage}
use replay_kit.Workspace.Points.{on_state, new_id}

-- A write that succeeds is one of the store as it is.
write_done :
    (W : Type 0) (f : MemoryState → Checked MemoryState) (a : Unit {0}) (s t : Session W)
    → calls {W = W} (write (on_state f)) s ≡ (ok a, t)
    → (u : MemoryState) × (f s.store.state ≡ ok u)
write_done W f a s t h = done (f s.store.state) (ap (λ x. x.0) h)
  where
    done :
        (r : Checked MemoryState)
        → map_err storage (after_write (map_ok (λ u. record s.store { state = u }) r) s.store).0
          ≡ ok a
        → (u : MemoryState) × (r ≡ ok u)
    done (ok u) h = (u, refl)
    done (err e) h = cc

-- What a property of the store has to survive for a fork to keep it.
pub record Begins (P : InMemoryStorage → Type 0) (env : Env) : Type 0 where
  pub ids : (kind : IdKind) → Keeps P (new_id kind)
  pub new_run : (run : RunRecord) → Keeps P (write (on_state (insert_run run)))
  pub then_on :
      (run : RunRecord) (st : InMemoryStorage) (u : MemoryState)
      → P st
      → insert_run run st.state ≡ ok u
      → Survives P env run.run_id

module _ {W : Type 0} (P : InMemoryStorage → Type 0) (machine : Machine W)
    (registry : ExecutorRegistry W) (keep_sandbox : Bool) (begins : Begins P machine.env) where
  pub execute_fork-Keeps :
      (request : BranchRequest)
      → Keeps (InStore P) (execute_fork machine registry keep_sandbox request)
  unfolding execute_fork ◌>>◌ branch_run
  execute_fork-Keeps request = keeps-bind (InStore P) _ _ (read-Keeps P _) (λ state.
      keeps-bind (InStore P) _ _ (read_source-Keeps P machine registry keep_sandbox _) (λ source.
        keeps-bind (InStore P) _ _ (calls-Keeps P W _ (begins.ids _)) (λ target.
          keeps-bind (InStore P) _ _ (calls-Keeps P W _ (begins.ids _)) (λ branch_id.
            keeps-bind (InStore P) _ _ (calls-Keeps P W _ (begins.ids _)) (λ job_id.
              keeps-learn (InStore P) _ _ (calls-Keeps P W _ (begins.new_run _)) (λ a s t p e.
                let run : RunRecord =
                  branch_run source.run target branch_id request.patch_manifest.created_at in
                let (u, done) = write_done W (insert_run run) a s t e in
                let survives : Survives P machine.env target =
                  begins.then_on run s.store u p done in
                keeps-bind (InStore P) _ _
                  (fork_records-Keeps P machine registry keep_sandbox request state target survives
                    source branch_id job_id)
                  (λ patch_id. keeps-bind (InStore P) _ _ (read-Keeps P _) (λ sandbox.
                    keeps-bind (InStore P) _ _
                      (replay_fork-Keeps P machine registry keep_sandbox request state target
                        survives patch_id sandbox)
                      (λ counts.
                        finish_fork-Keeps P machine registry keep_sandbox request state target
                          survives branch_id job_id sandbox counts)))))))))
