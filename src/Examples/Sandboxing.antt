-- ===== src/Examples/Sandboxing.antt =====
-- Paths, archives and forks at concrete inputs.
use replay_kit.Common.{
  ℕ, String, true, false, Option, none, some, List, [], ◌∷◌, In, ◌≡◌, refl, inl, inr, arith,
}
use replay_kit.Common.Action.{Keeps}
use replay_kit.Common.Eq.{string_eq}
use replay_kit.Common.Map.{get, insert}
use replay_kit.Common.Result.{ok, err}
use replay_kit.Common.Table.{get2, insert2}
use replay_kit.Common.Text.{drop_chars}
use replay_kit.Api.Branching.{ApiError, after_fork, compare_branch, create_branch}
use replay_kit.Api.Branching.Kept.{Outcome, create_branch-IsWellFormed, after_fork-Outcome}
use replay_kit.Examples.Fixtures.{some_env, some_store, content}
use replay_kit.Examples.Store.{some_store-IsWellFormed}
use replay_kit.Model.Enums.{PatchType, SpanStatus, RunStatus, ReplayMode, ReplayJobStatus}
use replay_kit.Model.Records.{BranchRequest, new_run}
use replay_kit.Model.Value.{Value, Document}
use replay_kit.Replay.Engine.{Machine, Session, ExecutorRegistry}
use replay_kit.Replay.Fork.{BranchExecution, execute_fork}
use replay_kit.Replay.Isolated.{execute_fork-SameRun}
use replay_kit.Replay.Isolated.Same.{SameRun}
use replay_kit.Replay.Sandbox.{
  ReplayWorkspace, resolve, resolve_under, root_aliases, below_alias, components, prefix_components,
  components_of, strip_components, join_inside, walk_inside, backwards,
}
use replay_kit.Replay.Sandbox.Inside.{resolve-Inside}
use replay_kit.Storage.Calls.{after, run_calls}
use replay_kit.Diff.Runs.{diff_runs}
use replay_kit.Storage.Error.{not_found, run_not_found}
use replay_kit.Storage.Integrity.{IsWellFormed}
use replay_kit.Storage.Records.{upsert_span, check_parent}
use replay_kit.Storage.Runs.{insert_run}
use replay_kit.Storage.State.{has_run, ensure_run_exists, get_run}
use replay_kit.Workspace.Archive.{WorkspaceArchive, WorkspaceEntry, EntryKind, Node, nil, to_bytes}
use replay_kit.Workspace.Decode.{IsReadable, from_bytes, from_bytes-to_bytes}
use replay_kit.Workspace.Files.{Files, split_path, is_absolute, safe_relative, safe_parts, place}
use replay_kit.Workspace.Restore.{restore, apply_transition}
use replay_kit.Workspace.Files.Names.{Inside}
use replay_kit.Workspace.Restore.Confined.{Calls, restore-transition-Calls}

-- A file system that keeps the paths that are written to.
abbrev log_files : Files (List String)
log_files = record {
  exists = λ path w. false;
  is_file = λ path w. false;
  is_dir = λ path w. false;
  is_symlink = λ path w. false;
  read_dir_any = λ path w. some false;
  lstat_is_dir = λ path w. some false;
  create_dir_all = λ path w. (true, path ∷ w);
  write_file = λ path bytes w. (true, path ∷ w);
  set_mode = λ path mode w. (true, path ∷ w);
  make_symlink = λ target path w. (true, path ∷ w);
  remove_dir_all = λ path w. (true, path ∷ w);
  remove_file = λ path w. (true, path ∷ w);
}

abbrev file_entry : WorkspaceEntry
file_entry = record {
  path = "src/a";
  kind = EntryKind.file;
  mode = 420;
  sha256 = some "two";
  len = 2;
  offset = 0;
  target = none;
}

abbrev one_file : WorkspaceArchive
one_file = record { entries = file_entry ∷ []; data_bytes = content }

abbrev no_files : WorkspaceArchive
no_files = record { entries = []; data_bytes = [] }

restore-transition-Calls_example :
    Calls log_files "/sandbox" [] (restore log_files "/sandbox" one_file []).1
    × Calls log_files "/sandbox" [] (apply_transition log_files "/sandbox" one_file no_files []).1
restore-transition-Calls_example =
    restore-transition-Calls log_files "/sandbox" one_file no_files []

-- A link of the archive that the path of a later entry leads through: the call names a path below the
-- target, and a host that follows the link writes elsewhere.
abbrev link_entry : WorkspaceEntry
link_entry = record file_entry {
  path = "src";
  kind = EntryKind.symlink;
  sha256 = none;
  len = 0;
  target = some "/out";
}

abbrev through_link : WorkspaceArchive
through_link = record { entries = link_entry ∷ file_entry ∷ []; data_bytes = content }

writes_through_link :
    (restore log_files "/sandbox" through_link []).1
    ≡ "/sandbox/src/a" ∷ "/sandbox/src/a" ∷ "/sandbox/src" ∷ "/sandbox/src" ∷ "/sandbox/src"
      ∷ "/sandbox" ∷ "/sandbox" ∷ []
unfolding restore replay_kit.Common.Action.◌>>◌ replay_kit.Common.Action.◌>>=◌
    replay_kit.Workspace.Restore.write_entries replay_kit.Workspace.Restore.write_entry
    safe_relative is_absolute safe_parts split_path replay_kit.Workspace.Restore.write_symlink
    replay_kit.Workspace.Restore.create_parent replay_kit.Workspace.Files.remove_path
    replay_kit.Workspace.Restore.write_regular replay_kit.Workspace.Restore.set_modes
    replay_kit.Workspace.Restore.reversed replay_kit.Workspace.Archive.EntryKind-discrete place
    replay_kit.Workspace.Files.parent_parts
writes_through_link = refl

-- A manifest of one file, in a stand-in for JSON.
abbrev json_of : List WorkspaceEntry → List ℕ
json_of entries = 7 ∷ []

abbrev entries_in : List ℕ → Option (List WorkspaceEntry)
entries_in bytes = some (file_entry ∷ [])

file_entry-safe : safe_relative file_entry.path ≡ ok ("src" ∷ "a" ∷ [])
unfolding safe_relative safe_parts split_path is_absolute
file_entry-safe = refl

file_entry-IsReadable : (entry : WorkspaceEntry) → In entry (file_entry ∷ []) → IsReadable 2 entry
file_entry-IsReadable entry (inl e) =
    rw e (record { parts = "src" ∷ "a" ∷ []; safe = file_entry-safe; within = λ h. omega arith })
file_entry-IsReadable entry (inr h) = absurd h

from_bytes-to_bytes_example : from_bytes entries_in (to_bytes json_of one_file) ≡ ok one_file
from_bytes-to_bytes_example =
    from_bytes-to_bytes json_of entries_in one_file refl (omega arith) (omega arith)
      file_entry-IsReadable

abbrev no_links : String → Option String
no_links path = none

abbrev some_workspace : ReplayWorkspace
some_workspace = record { sandbox = "/sandbox"; recorded_root = some "/private/tmp/repo" }

resolved : resolve no_links some_workspace "/tmp/repo/src" ≡ ok "/sandbox/src"
unfolding resolve resolve_under root_aliases below_alias components prefix_components components_of
    strip_components join_inside walk_inside backwards split_path is_absolute place drop_chars
resolved = refl

resolve-Inside_example : Inside "/sandbox" "/sandbox/src"
resolve-Inside_example =
    resolve-Inside no_links some_workspace "/tmp/repo/src" "/sandbox/src" resolved

abbrev pub some_machine : Machine (List String)
some_machine = record {
  env = some_env;
  manifest_json = json_of;
  read_manifest = entries_in;
  parse_json = λ text. none;
  from_utf8_lossy = λ bytes. "";
  debug_value = λ value. "";
  input_message = λ e. "";
  storage_message = λ e. "";
  files = log_files;
  node_at = λ path w. Node.dir 493 nil;
  sandbox_dir = λ run_id w. "/sandbox";
}

-- Executors that run every span, which then completes.
abbrev pub some_registry : ExecutorRegistry (List String)
some_registry = record {
  check = λ span context w. ok tt;
  execute = λ span context w. (
    ok (record {
      status = SpanStatus.completed;
      output_artifacts = [];
      output_fingerprint = some "new";
      snapshot = none;
      error_summary = none;
      cost = record { input_tokens = 1; output_tokens = 2; estimated_cost_micros = 3 };
    }),
    w,
  );
}

abbrev pub some_request : BranchRequest
some_request = record {
  source_run_id = "run";
  fork_span_id = "c";
  patch_manifest = record {
    patch_type = PatchType.prompt_edit;
    target_artifact_id = none;
    replacement = Value.text "again";
    note = none;
    created_at = 30;
  };
  created_by = none;
}

abbrev some_session : Session (List String)
some_session = record { store = some_store; world = []; archives = []; cursor = none }

recorded : has_run some_store.state "run" ≡ true
unfolding get insert insert2 get2 run_calls after insert_run upsert_span ensure_run_exists new_run
    check_parent
recorded = refl

execute_fork-SameRun_example :
    IsWellFormed
      (execute_fork some_machine some_registry false some_request some_session).1.store.state
    × SameRun some_store.state
        (execute_fork some_machine some_registry false some_request some_session).1.store.state
        "run"
execute_fork-SameRun_example =
    execute_fork-SameRun some_machine some_registry false some_request some_session "run"
      some_store-IsWellFormed recorded

create_branch-IsWellFormed_example :
    IsWellFormed
      (create_branch some_machine some_registry false some_request some_session).1.store.state
create_branch-IsWellFormed_example =
    create_branch-IsWellFormed some_machine some_registry false some_request some_session
      some_store-IsWellFormed

abbrev some_execution : BranchExecution
some_execution = record {
  branch = record {
    branch_id = "branch";
    source_run_id = "other";
    target_run_id = "run";
    fork_span_id = "c";
    patch_manifest_artifact_id = "p";
    created_at = 30;
    created_by = none;
    status = RunStatus.completed;
  };
  replay_job = record {
    replay_job_id = "job";
    source_run_id = "other";
    target_run_id = some "run";
    mode = ReplayMode.forked;
    status = ReplayJobStatus.completed;
    created_at = 30;
    started_at = some 30;
    ended_at = some 30;
    progress = Document.empty;
    error_summary = none;
  };
  target_run = new_run "run" "trace" "title" "main" "adapter" "1" 30;
  plan = record {
    source_run_id = "other";
    fork_span_id = "c";
    dirty_spans = [];
    blocked_spans = [];
    reusable_spans = [];
    blocked = [];
    warnings = [];
    rollup_spans = [];
  };
}

-- The source run of this branch is gone, so the comparison fails and the branch is taken back.
taken_back :
    Outcome some_machine some_registry false
      (ok some_execution, some_session)
      (after_fork some_machine some_registry false (ok some_execution, some_session))
taken_back = after_fork-Outcome some_machine some_registry false (ok some_execution, some_session)

comparison_fails :
    (after_fork some_machine some_registry false (ok some_execution, some_session)).0
    ≡ err (ApiError.diff (not_found (run_not_found "other")))
unfolding compare_branch diff_runs get_run get replay_kit.Common.Action.◌>>=◌ run_calls upsert_span
    ensure_run_exists insert_run insert new_run check_parent
comparison_fails = refl
