-- ===== src/Collector/Session.antt =====
-- The methods of the collector as the steps of a session: each has the host as it is at the time.
use replay_kit.Common.{ℕ, String, Option, List, [], ◌∷◌}
use replay_kit.Collector.Checks.{Host}
use replay_kit.Collector.Patch as Patch
use replay_kit.Collector.Records as Records
use replay_kit.Collector.Requests.{
  BeginRun, SpanSpec, EndSpan, EventSpec, ArtifactSpec, SnapshotSpec, EdgeSpec,
}
use replay_kit.Collector.Runs as Runs
use replay_kit.Collector.Spans as Spans
use replay_kit.Model.Enums.{RunStatus}
use replay_kit.Model.Records.{RunId, TraceId, SpanId, BranchRequest}
use replay_kit.Storage.State.{InMemoryStorage}
use replay_kit.Workspace.Archive.{CaptureOptions}

pub data Method : Type 0 where
  begin_run : BeginRun → Method
  start_span : RunId → TraceId → SpanSpec → Method
  end_span : RunId → SpanId → EndSpan → Method
  add_event : RunId → SpanId → EventSpec → Method
  add_artifact : RunId → Option SpanId → ArtifactSpec → Method
  add_snapshot : RunId → Option SpanId → SnapshotSpec → Method
  add_edge : RunId → EdgeSpec → Method
  finish_run : RunId → ℕ → RunStatus → Option String → Method
  abort_run : RunId → ℕ → String → Method
  patch_manifest_artifact : RunId → BranchRequest → Method

module _ (options : CaptureOptions) where
  -- The store after a method, whether it succeeded or failed.
  unfoldable pub perform : Host → Method → InMemoryStorage → InMemoryStorage
  perform host (begin_run request) st = (Runs.begin_run host options request st).1
  perform host (start_span run_id trace_id spec) st =
      (Spans.start_span host options run_id trace_id spec st).1
  perform host (end_span run_id span_id update) st =
      (Spans.end_span host options run_id span_id update st).1
  perform host (add_event run_id span_id spec) st = (Records.add_event run_id span_id spec st).1
  perform host (add_artifact run_id span_id spec) st =
      (Records.add_artifact host run_id span_id spec st).1
  perform host (add_snapshot run_id span_id spec) st =
      (Records.add_snapshot host run_id span_id spec st).1
  perform host (add_edge run_id spec) st = (Records.add_edge run_id spec st).1
  perform host (finish_run run_id ended_at status preview) st =
      (Runs.finish_run host options run_id ended_at status preview st).1
  perform host (abort_run run_id ended_at error) st =
      (Runs.abort_run host options run_id ended_at error st).1
  perform host (patch_manifest_artifact run_id request) st =
      (Patch.patch_manifest_artifact host run_id request st).1

  unfoldable pub session : List (Host × Method) → InMemoryStorage → InMemoryStorage
  unfolding perform
  session [] st = st
  session ((host, method) ∷ rest) st = session rest (perform host method st)
