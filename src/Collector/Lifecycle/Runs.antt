-- ===== src/Collector/Lifecycle/Runs.antt =====
-- `finish_run` finishes a run of which every span has ended, and no other.
use replay_kit.Common.{
  ℕ, ◌≤◌, String, Bool, true, false, Option, none, some, List, In, any, any-true, ◌≡◌, refl, arith,
}
use replay_kit.Common.Action.{◌>>=◌, ◌>>◌}
use replay_kit.Common.Eq.{string_eq, string_ord, negate}
use replay_kit.Common.Map.{get, insert, get-insert}
use replay_kit.Common.Result.{ok, err}
use replay_kit.Common.Tests.{leb}
use replay_kit.Collector.Checks.{Host, capture_workspace}
use replay_kit.Collector.Lifecycle.{capture_workspace-same}
use replay_kit.Collector.Lifecycle.Spans.{capture_workspace-ok}
use replay_kit.Collector.Requests.{invalid_input, still_running}
use replay_kit.Collector.Runs.{is_terminal, or_else, finish_run, finished_run}
use replay_kit.Model.Enums.{RunStatus}
use replay_kit.Model.Summary.{from_run_state}
use replay_kit.Model.Records.{RunId, SpanRecord, RunRecord, ArtifactRecord}
use replay_kit.Storage.Artifacts.{list_artifacts}
use replay_kit.Storage.Integrity.{IsWellFormed}
use replay_kit.Storage.Records.{list_spans}
use replay_kit.Storage.Runs.{update_run}
use replay_kit.Storage.State.{InMemoryStorage, get_run, ensure_run_exists}
use replay_kit.Workspace.Archive.{CaptureOptions}
use replay_kit.Workspace.Points.{WorkspacePhase}

abbrev pub still_runs : SpanRecord → Bool
still_runs span = negate (is_terminal span)

-- A run that is finished: the end, the status and the summary are new, and all else is as it was.
pub record IsFinished (ended_at : ℕ) (status : RunStatus) (spans : List SpanRecord)
    (artifacts : List ArtifactRecord) (preview : Option String) (old new : RunRecord) : Type 0 where
  pub ended : new.ended_at ≡ some ended_at
  pub final_status : new.status ≡ status
  pub summary : new.summary ≡ from_run_state status spans artifacts preview
  pub else_kept :
      record new { ended_at = old.ended_at; status = old.status; summary = old.summary } ≡ old

finished_run-IsFinished :
    (run : RunRecord) (ended_at : ℕ) (status : RunStatus) (spans : List SpanRecord)
    (artifacts : List ArtifactRecord) (preview : Option String)
    → IsFinished ended_at status spans artifacts preview run
        (finished_run run ended_at status spans artifacts preview)
unfolding finished_run
finished_run-IsFinished run ended_at status spans artifacts preview = record {
  ended = refl;
  final_status = refl;
  summary = refl;
  else_kept = refl;
}

module _ (host : Host) (options : CaptureOptions) (run_id : RunId) (ended_at : ℕ)
    (status : RunStatus) (preview : Option String) (st : InMemoryStorage) (run : RunRecord)
    (found : get run_id st.state.runs ≡ some run) (late : run.started_at ≤ ended_at) where
  in_time : leb run.started_at ended_at ≡ true
  in_time = ground arith

  -- While a span of a recorded run has not ended, `finish_run` is refused and changes nothing, where
  -- the end is not before the start.
  pub finish_run-refused :
      (span : SpanRecord)
      → In span (list_spans run_id st.state)
      → is_terminal span ≡ false
      → finish_run host options run_id ended_at status preview st
        ≡ (err (invalid_input (still_running run_id)), st)
  unfolding finish_run get_run ◌>>=◌ ◌>>◌
  finish_run-refused span listed runs =
      let one : any still_runs (list_spans run_id st.state) ≡ true =
        any-true still_runs span (list_spans run_id st.state) listed (rw runs refl) in
      rw (found, in_time, one) refl

  abbrev pub captured : InMemoryStorage
  captured = (capture_workspace host options run none WorkspacePhase.end ended_at st).1

  -- In a well-formed store, a recorded run of which every span has ended finishes, where the end is
  -- not before the start and its artifacts validate once the workspace is captured: the run that is
  -- returned has the given end and status, the summary of its spans and artifacts with the given
  -- preview, or else the one of before, and all else as it was. It is the one then recorded, and no
  -- span changes.
  pub finish_run-finishes :
      (artifacts : List ArtifactRecord)
      → IsWellFormed st.state
      → any still_runs (list_spans run_id st.state) ≡ false
      → list_artifacts host.env run_id captured.state ≡ ok artifacts
      → (finished : RunRecord) × IsFinished ended_at status
          (list_spans run_id st.state)
          artifacts
          (or_else preview run.summary.final_output_preview)
          run
          finished
        × (t : InMemoryStorage) × (finish_run host options run_id ended_at status preview st
            ≡ (ok finished, t))
        × (get run_id t.state.runs ≡ some finished)
        × (t.state.spans ≡ st.state.spans)
  unfolding finish_run get_run update_run ensure_run_exists finished_run ◌>>=◌ ◌>>◌
  finish_run-finishes artifacts w ended listed =
      let summed = or_else preview run.summary.final_output_preview in
      let finished =
        finished_run run ended_at status (list_spans run_id st.state) artifacts summed in
      let runs = insert run.run_id finished captured.state.runs in
      let done = capture_workspace-ok host options run none WorkspacePhase.end ended_at st in
      let same = capture_workspace-same host options run none WorkspacePhase.end ended_at st in
      let key = w.runs run_id run found in
      let present : get run.run_id captured.state.runs ≡ some run = simp (key, same.0) found in
      (
        finished,
        finished_run-IsFinished run ended_at status (list_spans run_id st.state) artifacts summed,
        record captured { state = record captured.state { runs = runs } },
        rw (found, in_time, ended, done, listed) (rw present refl),
        ground (
          arith,
          key,
          get-insert run.run_id run_id finished captured.state.runs,
          string_eq.equal_iff run.run_id run_id,
        ),
        same.1,
      )
