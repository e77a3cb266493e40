-- ===== src/Replay/Isolated.antt =====
-- A fork leaves the recorded runs alone: `execute_fork` writes records of the new run only.
pub mod Same
pub mod Steps
use mathlib.Core.Path.{subst}
use replay_kit.Common.{
  String, Bool, true, false, List, Option, none, some, ◌≡◌, ◌≢◌, refl, sym, ap, ◌∙◌, arith,
}
use replay_kit.Common.Action.{
  Action, ◌>>◌, Keeps, keeps-bind, keeps-then, keeps-learn, write, after_write,
}
use replay_kit.Common.Eq.{string_eq, string_ord}
use replay_kit.Common.Map.{Map, get, insert, get-insert, is_some}
use replay_kit.Common.Result.{Result, ok, err, map_ok, map_err}
use replay_kit.Common.Table.{or_empty, get2, insert2, get2-insert2, push, list-push}
use replay_kit.Model.Records.{
  RunId, SpanId, ArtifactId, SnapshotId, RunRecord, SpanRecord, EventRecord, ArtifactRecord,
  SnapshotRecord, SpanEdgeRecord, BranchRecord, ReplayJobRecord, BranchRequest,
}
use replay_kit.Replay.Engine.{Machine, Session, ExecutorRegistry, Replaying, calls, storage}
use replay_kit.Replay.Fork.{SourceRecords, branch_run, execute_fork, replay_fork, finish_fork}
use replay_kit.Replay.Keeping.{Survives, IsOnRun}
use replay_kit.Replay.Keeping.Whole.{Begins, execute_fork-Keeps}
use replay_kit.Replay.Keeping.Line.{InStore, calls-Keeps, read-Keeps}
use replay_kit.Storage.Artifacts
use replay_kit.Storage.Artifacts.{record_stored, with_blob}
use replay_kit.Storage.Blob.{Env, store}
use replay_kit.Storage.Branches
use replay_kit.Storage.Calls.{
  Call, after, commit, allocate_id, next_sequence, insert_run, update_run, upsert_span,
  insert_event, insert_artifact, insert_snapshot, insert_edge, insert_branch, insert_replay_job,
  update_replay_job, insert_diff, store_artifact_with_content, cleanup_branch_execution,
}
use replay_kit.Storage.Error.{Checked}
use replay_kit.Storage.Integrity.{IsWellFormed}
use replay_kit.Storage.Integrity.Calls.{after-IsWellFormed}
use replay_kit.Storage.Records
use replay_kit.Storage.Runs
use replay_kit.Storage.State.{
  MemoryState, InMemoryStorage, span_at, artifact_at, snapshot_at, events_of, edges_of, has_run,
  ensure_run_exists, get_span, get_run,
}
use replay_kit.Workspace.Points.{on_state, new_id}
use replay_kit.Replay.Isolated.Same.{SameRun, SameRun-refl, SameRun-trans, parts, insert_run_same}
use replay_kit.Replay.Isolated.Steps.{on_run_same}
use replay_kit.Storage.Integrity.Spans.{insert_run-IsWellFormed}
use replay_kit.Storage.Integrity.Aside.{allocate_id-IsWellFormed}
use replay_kit.Model.Enums.{IdKind}

abbrev Sound : InMemoryStorage → Type 0
Sound st = IsWellFormed st.state

-- The invariant of a fork that writes to the run `r`: the store is well formed, and the run `q` is as
-- it was at the start.
abbrev Unharmed : MemoryState → RunId → InMemoryStorage → Type 0
Unharmed before q st = IsWellFormed st.state × SameRun before st.state q

span_found :
    (s : MemoryState) (r : RunId) (i : SpanId) (x : SpanRecord)
    → get_span r i s ≡ ok x
    → span_at s r i ≡ some x
unfolding get_span
span_found s r i x h = ground arith

run_found :
    (s : MemoryState) (r : RunId) (x : RunRecord) → get_run r s ≡ ok x → get r s.runs ≡ some x
unfolding get_run
run_found s r x h = ground arith

Unharmed-Survives :
    (env : Env) (before : MemoryState) (q r : RunId) → r ≢ q → Survives (Unharmed before q) env r
Unharmed-Survives env before q r other = record {
  call = λ c st on p. (
    after-IsWellFormed env st p.0 c,
    SameRun-trans before st.state (after env c st).state q p.1 (on_run_same env r q c st other on),
  );
  span_key = λ st i x p h. (p.0.spans r i x (span_found st.state r i x h)).run_key;
  run_key = λ st x p h. p.0.runs r x (run_found st.state r x h);
}

-- A run that is put in was not there before.
fresh :
    (run : RunRecord) (s t : MemoryState) (q : RunId)
    → Runs.insert_run run s ≡ ok t
    → has_run s q ≡ true
    → run.run_id ≢ q
unfolding Runs.insert_run
fresh run s t q h there e =
    let taken : has_run s run.run_id ≡ true = rw e there in ground (arith, taken, h)

module _ (before : MemoryState) (q : RunId) (there : has_run before q ≡ true) where
  still_there : (st : InMemoryStorage) → Unharmed before q st → has_run st.state q ≡ true
  still_there st p = rw p.1.run there

  new_id-Keeps : (kind : IdKind) → Keeps (Unharmed before q) (new_id kind)
  unfolding Keeps Runs.allocate_id
  new_id-Keeps kind st p = (
    allocate_id-IsWellFormed st.state p.0 kind,
    SameRun-trans before st.state _ q p.1
        (parts st.state q _ refl (λ i. refl) (λ i. refl) (λ i. refl) refl refl),
  )

  insert_run-Keeps :
      (run : RunRecord) → Keeps (Unharmed before q) (write (on_state (Runs.insert_run run)))
  unfolding Keeps
  insert_run-Keeps run st p = inserted (Runs.insert_run run st.state) refl
    where
      inserted :
          (r : Checked MemoryState)
          → Runs.insert_run run st.state ≡ r
          → Unharmed before q (after_write (map_ok (λ u. record st { state = u }) r) st).1
      inserted (err e) h = p
      inserted (ok t) h = (
        insert_run-IsWellFormed st.state run h p.0,
        SameRun-trans before st.state t q p.1
            (insert_run_same st.state q run (fresh run st.state t q h (still_there st p)) h),
      )

  Unharmed-Begins : (env : Env) → Begins (Unharmed before q) env
  Unharmed-Begins env = record {
    ids = new_id-Keeps;
    new_run = insert_run-Keeps;
    then_on = λ run st u p h.
        Unharmed-Survives env before q run.run_id (fresh run st.state u q h (still_there st p));
  }

-- The integrity of the store alone.
wf_id-Keeps : (kind : IdKind) → Keeps Sound (new_id kind)
unfolding Keeps
wf_id-Keeps kind st w = allocate_id-IsWellFormed st.state w kind

wf_run-Keeps : (run : RunRecord) → Keeps Sound (write (on_state (Runs.insert_run run)))
unfolding Keeps
wf_run-Keeps run st w = inserted (Runs.insert_run run st.state) refl
  where
    inserted :
        (r : Checked MemoryState)
        → Runs.insert_run run st.state ≡ r
        → Sound (after_write (map_ok (λ u. record st { state = u }) r) st).1
    inserted (err e) h = w
    inserted (ok t) h = insert_run-IsWellFormed st.state run h w

Sound-Survives : (env : Env) (r : RunId) → Survives Sound env r
Sound-Survives env r = record {
  call = λ c st on w. after-IsWellFormed env st w c;
  span_key = λ st i x w h. (w.spans r i x (span_found st.state r i x h)).run_key;
  run_key = λ st x w h. w.runs r x (run_found st.state r x h);
}

-- A fork keeps a well-formed store well formed, whatever becomes of it.
pub execute_fork-IsWellFormed :
    {W : Type 0} (machine : Machine W) (registry : ExecutorRegistry W) (keep_sandbox : Bool)
    (request : BranchRequest) (s : Session W)
    → IsWellFormed s.store.state
    → IsWellFormed (execute_fork machine registry keep_sandbox request s).1.store.state
unfolding Keeps
execute_fork-IsWellFormed machine registry keep_sandbox request s w =
    execute_fork-Keeps Sound machine registry keep_sandbox
      (record {
        ids = wf_id-Keeps;
        new_run = wf_run-Keeps;
        then_on = λ run st u p h. Sound-Survives machine.env run.run_id;
      })
      request s w

-- Whatever the executors do, and whether the fork succeeds or fails at some step: if the store was well
-- formed before it, the store is well formed after it, and each run that was there before has the same
-- record, spans, artifacts, snapshots, events and edges.
pub execute_fork-SameRun :
    {W : Type 0} (machine : Machine W) (registry : ExecutorRegistry W) (keep_sandbox : Bool)
    (request : BranchRequest) (s : Session W) (q : RunId)
    → IsWellFormed s.store.state
    → has_run s.store.state q ≡ true
    → IsWellFormed (execute_fork machine registry keep_sandbox request s).1.store.state
      × SameRun s.store.state (execute_fork machine registry keep_sandbox request s).1.store.state q
unfolding Keeps
execute_fork-SameRun machine registry keep_sandbox request s q w there =
    execute_fork-Keeps (Unharmed s.store.state q) machine registry keep_sandbox
      (Unharmed-Begins s.store.state q there machine.env) request s
      (w, SameRun-refl s.store.state q)
