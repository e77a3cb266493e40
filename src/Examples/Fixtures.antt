-- ===== src/Examples/Fixtures.antt =====
-- A recorded run with three spans, and the store that holds it.
use replay_kit.Common.{ℕ, String, true, Option, none, some, List, [], ◌∷◌, length}
use replay_kit.Common.Tests.{nat_beq, if◌then◌else◌}
use replay_kit.Collector.Checks.{Host}
use replay_kit.Model.Enums.{SpanKind, SpanStatus, EdgeKind, ReplayPolicy, ArtifactType}
use replay_kit.Model.Records.{
  RunId, SpanId, RunRecord, SpanRecord, SpanEdgeRecord, ArtifactRecord, new_run,
}
use replay_kit.Model.Value.{Document}
use replay_kit.Storage.Blob.{Env, Bytes}
use replay_kit.Storage.Calls.{Call, run_calls}
use replay_kit.Storage.State.{InMemoryStorage, empty_state}
use replay_kit.Workspace.Archive.{Node, CaptureOptions, nil}

-- A stand-in for a digest, which tells apart two bytes and any other number of them.
abbrev pub some_env : Env
some_env = record {
  canonicalize = λ path. none;
  sha256_hex = λ bytes. if nat_beq (length bytes) 2 then "two" else "other";
  metadata = λ path. none;
}

abbrev pub some_host : Host
some_host = record {
  env = some_env;
  manifest_json = λ entries. [];
  canonicalize = λ path. some (path, true);
  node_at = λ path. Node.dir 493 nil;
}

abbrev pub some_options : CaptureOptions
some_options = record { max_bytes = 100; exclude = [] }

abbrev pub some_run : RunRecord
some_run = new_run "run" "trace" "title" "main" "adapter" "1" 10

abbrev pub other_run : RunRecord
other_run = new_run "fork" "trace" "title" "main" "adapter" "1" 20

abbrev pub span_with :
    RunId → SpanId → Option SpanId → ℕ → SpanKind → SpanStatus → Option ℕ → SpanRecord
span_with run_id span_id parent sequence_no kind status ended_at = record {
  run_id = run_id;
  span_id = span_id;
  trace_id = "trace";
  parent_span_id = parent;
  sequence_no = sequence_no;
  kind = kind;
  name = span_id;
  status = status;
  started_at = 10;
  ended_at = ended_at;
  replay_policy = ReplayPolicy.record_only;
  executor_kind = none;
  executor_version = none;
  input_artifact_ids = [];
  output_artifact_ids = [];
  snapshot_id = none;
  input_fingerprint = none;
  output_fingerprint = none;
  environment_fingerprint = none;
  attributes = Document.empty;
  error_code = none;
  error_summary = none;
  cost = record { input_tokens = 3; output_tokens = 4; estimated_cost_micros = 5 };
}

abbrev pub root_span : SpanRecord
root_span = span_with "run" "a" none 1 SpanKind.run SpanStatus.completed (some 12)

abbrev pub failed_span : SpanRecord
failed_span = span_with "run" "b" (some "a") 2 SpanKind.tool_call SpanStatus.failed (some 11)

abbrev pub open_span : SpanRecord
open_span = span_with "run" "c" (some "a") 3 SpanKind.llm_call SpanStatus.running none

abbrev pub some_spans : List SpanRecord
some_spans = root_span ∷ failed_span ∷ open_span ∷ []

abbrev pub data_edge : SpanEdgeRecord
data_edge = record {
  edge_id = "e";
  run_id = "run";
  from_span_id = "c";
  to_span_id = "b";
  kind = EdgeKind.data_depends_on;
  attributes = Document.empty;
}

abbrev pub artifact_of : RunId → String → ArtifactRecord
artifact_of run_id id = record {
  artifact_id = id;
  run_id = run_id;
  span_id = none;
  artifact_type = ArtifactType.debug_log;
  mime = "text/plain";
  sha256 = "";
  byte_len = 0;
  blob_path = "";
  summary = Document.empty;
  redaction = Document.empty;
  created_at = 10;
}

abbrev pub content : Bytes
content = 1 ∷ 2 ∷ []

abbrev pub empty_store : InMemoryStorage
empty_store = record { state = empty_state; blobs = [] }

-- A span with no parent that has not ended, and the store in which it is recorded.
abbrev pub lone_span : SpanRecord
lone_span = span_with "run" "c" none 1 SpanKind.llm_call SpanStatus.running none

abbrev pub some_calls : List Call
some_calls = Call.insert_run some_run ∷ Call.upsert_span lone_span ∷ []

abbrev pub some_store : InMemoryStorage
some_store = run_calls some_env some_calls empty_store

abbrev pub stored : ArtifactRecord → ArtifactRecord
stored artifact = record artifact { sha256 = "two"; byte_len = 2; blob_path = "memory://blob/two" }

-- Two runs that share a blob.
abbrev pub shared_store : InMemoryStorage
shared_store = record {
  state = record empty_state {
    runs = ("fork", other_run) ∷ ("run", some_run) ∷ [];
    artifacts =
        ("fork", ("y", stored (artifact_of "fork" "y")) ∷ [])
        ∷ ("run", ("x", stored (artifact_of "run" "x")) ∷ [])
        ∷ [];
  };
  blobs = ("two", content) ∷ [];
}
