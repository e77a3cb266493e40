-- ===== src/Examples/Recording.antt =====
-- Sessions of the collector.
use replay_kit.Common.{◌≤◌, false, ◌&&◌, none, some, List, [], ◌∷◌, In, any, ◌≡◌, refl, inl, arith}
use replay_kit.Common.Eq.{◌==◌, string_eq, string_lt}
use replay_kit.Common.Map.{get, insert}
use replay_kit.Common.Result.{ok, err}
use replay_kit.Common.Sort.{sort_by_key, insert_by_key}
use replay_kit.Common.Table.{get2, insert2}
use replay_kit.Common.Tests.{if◌then◌else◌}
use replay_kit.Collector.Checks.{Host, capture_workspace, capture_root}
use replay_kit.Collector.Integrity.Methods.{session-IsWellFormed}
use replay_kit.Collector.Lifecycle.Runs.{
  IsFinished, still_runs, captured, finish_run-refused, finish_run-finishes,
}
use replay_kit.Collector.Lifecycle.Spans.{IsEnded, after_end, end_span-refused, end_span-ends}
use replay_kit.Collector.Requests.{BeginRun, EndSpan, invalid_input, already_ended, still_running}
use replay_kit.Collector.Runs.{or_else, finish_run}
use replay_kit.Collector.Session.{Method, session}
use replay_kit.Collector.Spans.{end_span, check_outputs, check_snapshot}
use replay_kit.Examples.Fixtures.{
  some_env, some_host, some_options, some_run, some_calls, some_store, empty_store, lone_span,
}
use replay_kit.Model.Enums.{SpanStatus, RunStatus}
use replay_kit.Model.Records.{RunRecord, SpanRecord, RunId, SpanId, no_cost, new_run}
use replay_kit.Storage.Calls.{Call, run_calls, after}
use replay_kit.Storage.Integrity.{IsWellFormed}
use replay_kit.Storage.Integrity.Calls.{run_calls-IsWellFormed, empty_state-IsWellFormed}
use replay_kit.Storage.Artifacts.{list_artifacts, validate_all}
use replay_kit.Storage.Records.{upsert_span, check_parent, list_spans}
use replay_kit.Storage.Runs.{insert_run}
use replay_kit.Storage.State.{InMemoryStorage, span_at, ensure_run_exists}

some_store-IsWellFormed : IsWellFormed some_store.state
some_store-IsWellFormed =
    run_calls-IsWellFormed some_env some_calls empty_store empty_state-IsWellFormed

abbrev some_end : EndSpan
some_end = record {
  ended_at = 15;
  status = SpanStatus.completed;
  output_artifact_ids = [];
  snapshot_id = none;
  output_fingerprint = some "f";
  error_code = none;
  error_summary = none;
  cost = no_cost;
}

recorded : span_at some_store.state "run" "c" ≡ some lone_span
unfolding run_calls after insert_run upsert_span ensure_run_exists check_parent get insert get2
    insert2 string_lt new_run
recorded = refl

run_recorded : get "run" some_store.state.runs ≡ some some_run
unfolding run_calls after insert_run upsert_span ensure_run_exists check_parent get insert get2
    insert2 string_lt new_run
run_recorded = refl

outputs_checked :
    check_outputs some_host some_options "run" "c" some_end.output_artifact_ids some_store
    ≡ (ok tt, some_store)
unfolding check_outputs
outputs_checked = refl

snapshot_checked :
    check_snapshot some_host some_options "run" "c" some_end.snapshot_id some_store
    ≡ (ok tt, some_store)
unfolding check_snapshot
snapshot_checked = refl

end_span-ends_example :
    (ended : SpanRecord) × IsEnded some_end lone_span ended
    × (end_span some_host some_options "run" "c" some_end some_store ≡ (
      ok ended,
      after_end some_host some_options "run" "c" some_end some_store lone_span ended some_run,
    ))
    × ((r : RunId) (i : SpanId)
        → span_at
            (after_end some_host some_options "run" "c" some_end some_store lone_span ended
              some_run).state
            r
            i
          ≡ (if "run" == r && "c" == i then some ended else span_at some_store.state r i))
end_span-ends_example =
    end_span-ends some_host some_options "run" "c" some_end some_store lone_span some_run
      some_store-IsWellFormed recorded run_recorded refl (omega arith) outputs_checked
      snapshot_checked

started : some_run.started_at ≤ 20
unfolding new_run
started = omega arith

listed : In lone_span (list_spans "run" some_store.state)
unfolding run_calls after insert_run upsert_span ensure_run_exists check_parent get insert get2
    insert2 string_lt new_run list_spans sort_by_key insert_by_key
listed = inl refl

finish_run-refused_example :
    finish_run some_host some_options "run" 20 RunStatus.completed none some_store
    ≡ (err (invalid_input (still_running "run")), some_store)
finish_run-refused_example =
    finish_run-refused some_host some_options "run" 20 RunStatus.completed none some_store some_run
      run_recorded started lone_span listed refl

-- The store in which the span has ended.
abbrev ended_lone : SpanRecord
ended_lone = record lone_span { ended_at = some 15; status = SpanStatus.completed }

abbrev closed_calls : List Call
closed_calls = Call.insert_run some_run ∷ Call.upsert_span ended_lone ∷ []

abbrev closed_store : InMemoryStorage
closed_store = run_calls some_env closed_calls empty_store

closed_store-IsWellFormed : IsWellFormed closed_store.state
closed_store-IsWellFormed =
    run_calls-IsWellFormed some_env closed_calls empty_store empty_state-IsWellFormed

ended_recorded : span_at closed_store.state "run" "c" ≡ some ended_lone
unfolding run_calls after insert_run upsert_span ensure_run_exists check_parent get insert get2
    insert2 string_lt new_run
ended_recorded = refl

closed_run : get "run" closed_store.state.runs ≡ some some_run
unfolding run_calls after insert_run upsert_span ensure_run_exists check_parent get insert get2
    insert2 string_lt new_run
closed_run = refl

end_span-refused_example :
    end_span some_host some_options "run" "c" some_end closed_store
    ≡ (err (invalid_input (already_ended "c" "run")), closed_store)
end_span-refused_example =
    end_span-refused some_host some_options "run" "c" some_end closed_store ended_lone
      ended_recorded refl

all_ended : any still_runs (list_spans "run" closed_store.state) ≡ false
unfolding run_calls after insert_run upsert_span ensure_run_exists check_parent get insert get2
    insert2 string_lt new_run list_spans sort_by_key insert_by_key
all_ended = refl

no_artifacts :
    list_artifacts some_env "run"
      (captured some_host some_options "run" 20 RunStatus.completed none closed_store some_run
        closed_run started).state
    ≡ ok []
unfolding run_calls after insert_run upsert_span ensure_run_exists check_parent get insert get2
    insert2 string_lt new_run list_artifacts validate_all sort_by_key capture_workspace capture_root
no_artifacts = refl

finish_run-finishes_example :
    (finished : RunRecord) × IsFinished 20 RunStatus.completed
      (list_spans "run" closed_store.state)
      []
      (or_else none some_run.summary.final_output_preview)
      some_run
      finished
    × (t : InMemoryStorage) × (finish_run some_host some_options "run" 20 RunStatus.completed none
          closed_store
        ≡ (ok finished, t))
    × (get "run" t.state.runs ≡ some finished)
    × (t.state.spans ≡ closed_store.state.spans)
finish_run-finishes_example =
    finish_run-finishes some_host some_options "run" 20 RunStatus.completed none closed_store
      some_run closed_run started [] closed_store-IsWellFormed all_ended no_artifacts

abbrev some_request : BeginRun
some_request = record {
  title = "title";
  entrypoint = "main";
  adapter_name = "adapter";
  adapter_version = "1";
  started_at = 10;
  git_sha = none;
  environment_fingerprint = none;
  host = record { os = "linux"; arch = "x86_64"; hostname = none };
  labels = [];
  workspace_root = some "/work";
}

abbrev some_methods : List (Host × Method)
some_methods =
    (some_host, Method.begin_run some_request)
    ∷ (some_host, Method.end_span "run" "c" some_end)
    ∷ (some_host, Method.finish_run "run" 20 RunStatus.completed none)
    ∷ []

session-IsWellFormed_example : IsWellFormed (session some_options some_methods some_store).state
session-IsWellFormed_example =
    session-IsWellFormed some_options some_methods some_store some_store-IsWellFormed
