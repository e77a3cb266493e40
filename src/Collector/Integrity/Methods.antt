-- ===== src/Collector/Integrity/Methods.antt =====
-- Every method of the collector, and every session of them.
use replay_kit.Common.{List, [], ◌∷◌}
use replay_kit.Common.Action.{Keeps}
use replay_kit.Collector.Checks.{Host}
use replay_kit.Collector.Integrity.Records.{
  add_event-Keeps, add_artifact-Keeps, add_snapshot-Keeps, add_edge-Keeps,
  patch_manifest_artifact-Keeps,
}
use replay_kit.Collector.Integrity.Runs.{begin_run-Keeps, finish_run-Keeps, abort_run-Keeps}
use replay_kit.Collector.Integrity.Spans.{start_span-Keeps, end_span-Keeps}
use replay_kit.Collector.Session.{
  Method, perform, session, begin_run, start_span, end_span, add_event, add_artifact, add_snapshot,
  add_edge, finish_run, abort_run, patch_manifest_artifact,
}
use replay_kit.Storage.Integrity.{IsWellFormed}
use replay_kit.Storage.State.{InMemoryStorage}
use replay_kit.Workspace.Archive.{CaptureOptions}

module _ (options : CaptureOptions) where
  perform-IsWellFormed :
      (host : Host) (method : Method) (st : InMemoryStorage)
      → IsWellFormed st.state
      → IsWellFormed (perform options host method st).state
  unfolding perform Keeps
  perform-IsWellFormed host (begin_run request) = begin_run-Keeps host options request
  perform-IsWellFormed host (start_span run_id trace_id spec) =
      start_span-Keeps host options run_id trace_id spec
  perform-IsWellFormed host (end_span run_id span_id update) =
      end_span-Keeps host options run_id span_id update
  perform-IsWellFormed host (add_event run_id span_id spec) =
      add_event-Keeps host run_id span_id spec
  perform-IsWellFormed host (add_artifact run_id span_id spec) =
      add_artifact-Keeps host run_id span_id spec
  perform-IsWellFormed host (add_snapshot run_id span_id spec) =
      add_snapshot-Keeps host run_id span_id spec
  perform-IsWellFormed host (add_edge run_id spec) = add_edge-Keeps run_id spec
  perform-IsWellFormed host (finish_run run_id ended_at status preview) =
      finish_run-Keeps host options run_id ended_at status preview
  perform-IsWellFormed host (abort_run run_id ended_at error) =
      abort_run-Keeps host options run_id ended_at error
  perform-IsWellFormed host (patch_manifest_artifact run_id request) =
      patch_manifest_artifact-Keeps host run_id request

  -- Whatever methods of the collector are called, one after another, whatever each finds on the host
  -- and whether it succeeds or fails part of the way, a store that is well formed stays so.
  pub session-IsWellFormed :
      (methods : List (Host × Method)) (st : InMemoryStorage)
      → IsWellFormed st.state
      → IsWellFormed (session options methods st).state
  unfolding session
  session-IsWellFormed [] st w = w
  session-IsWellFormed ((host, method) ∷ rest) st w =
      session-IsWellFormed rest (perform options host method st)
        (perform-IsWellFormed host method st w)
