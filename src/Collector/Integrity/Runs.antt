-- ===== src/Collector/Integrity/Runs.antt =====
-- `begin_run`, `finish_run` and `abort_run` keep the store well formed.
use replay_kit.Common.{ℕ, String, Bool, true, false, Option, none, some}
use replay_kit.Common.Action.{Keeps, keeps-bind, keeps-then, keeps-read}
use replay_kit.Collector.Checks.{Host}
use replay_kit.Collector.Integrity.{Sound, via-Keeps, new_id-Keeps, writing-Keeps}
use replay_kit.Collector.Integrity.Capture.{capture_workspace-Keeps}
use replay_kit.Collector.Requests.{BeginRun}
use replay_kit.Collector.Runs.{usable_root, root_of, begin_run, finish_run, abort_run}
use replay_kit.Model.Enums.{IdKind, RunStatus}
use replay_kit.Model.Records.{RunId}
use replay_kit.Storage.Integrity.Spans.{insert_run-IsWellFormed, update_run-IsWellFormed}
use replay_kit.Workspace.Archive.{CaptureOptions}

module _ (host : Host) (options : CaptureOptions) where
  usable_root-Keeps :
      (root : String) (found : Option (String × Bool))
      → Keeps Sound (usable_root host options root found)
  unfolding usable_root
  usable_root-Keeps root none = keeps-read Sound _
  usable_root-Keeps root (some (canonical, true)) = keeps-read Sound _
  usable_root-Keeps root (some (canonical, false)) = keeps-read Sound _

  root_of-Keeps : (root : Option String) → Keeps Sound (root_of host options root)
  unfolding root_of
  root_of-Keeps none = keeps-read Sound _
  root_of-Keeps (some root) = usable_root-Keeps root (host.canonicalize root)

  pub begin_run-Keeps : (request : BeginRun) → Keeps Sound (begin_run host options request)
  unfolding begin_run
  begin_run-Keeps request = keeps-bind Sound _ _ (via-Keeps _ (new_id-Keeps IdKind.run)) (λ run_id.
      keeps-bind Sound _ _ (via-Keeps _ (new_id-Keeps IdKind.trace)) (λ trace_id.
        keeps-bind Sound _ _ (root_of-Keeps request.workspace_root) (λ root.
          keeps-then Sound _ _ (writing-Keeps _ (λ s t h w. insert_run-IsWellFormed s _ h w))
            (keeps-read Sound _))))

  pub finish_run-Keeps :
      (run_id : RunId) (ended_at : ℕ) (status : RunStatus) (preview : Option String)
      → Keeps Sound (finish_run host options run_id ended_at status preview)
  unfolding finish_run
  finish_run-Keeps run_id ended_at status preview =
      keeps-bind Sound _ _ (keeps-read Sound _) (λ run. keeps-then Sound _ _ (keeps-read Sound _) (
        keeps-bind Sound _ _ (keeps-read Sound _) (λ spans.
          keeps-then Sound _ _ (keeps-read Sound _) (
            keeps-then Sound _ _ (capture_workspace-Keeps host options run none _ ended_at) (
              keeps-bind Sound _ _ (keeps-read Sound _) (λ artifacts.
                keeps-then Sound _ _ (writing-Keeps _ (λ s t h w. update_run-IsWellFormed s _ h w))
                  (keeps-read Sound _)))))))

  pub abort_run-Keeps :
      (run_id : RunId) (ended_at : ℕ) (error : String)
      → Keeps Sound (abort_run host options run_id ended_at error)
  unfolding abort_run
  abort_run-Keeps run_id ended_at error = keeps-bind Sound _ _ (keeps-read Sound _) (λ run.
      keeps-then Sound _ _ (keeps-read Sound _) (
        keeps-bind Sound _ _ (keeps-read Sound _) (λ spans.
          keeps-bind Sound _ _ (keeps-read Sound _) (λ artifacts.
            keeps-then Sound _ _ (writing-Keeps _ (λ s t h w. update_run-IsWellFormed s _ h w))
              (keeps-read Sound _)))))
