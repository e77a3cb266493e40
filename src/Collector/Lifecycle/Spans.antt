-- ===== src/Collector/Lifecycle/Spans.antt =====
-- `end_span` ends a span that runs, and no other.
use replay_kit.Common.{ℕ, ◌≤◌, String, ◌&&◌, true, false, Option, none, some, ◌≡◌, refl, arith}
use replay_kit.Common.Action.{◌>>=◌, ◌>>◌}
use replay_kit.Common.Eq.{◌==◌, string_eq, string_ord}
use replay_kit.Common.Map.{get}
use replay_kit.Common.Result.{ok, err}
use replay_kit.Common.Table.{insert2, get2-insert2}
use replay_kit.Common.Tests.{leb, if◌then◌else◌}
use replay_kit.Collector.Checks.{Host, capture_workspace, capture_root}
use replay_kit.Collector.Lifecycle.{capture_workspace-same}
use replay_kit.Collector.Requests.{EndSpan, invalid_input, already_ended}
use replay_kit.Collector.Runs.{is_terminal}
use replay_kit.Collector.Spans.{end_span, ended_span, check_outputs, check_snapshot}
use replay_kit.Model.Records.{RunId, SpanId, SpanRecord, RunRecord}
use replay_kit.Storage.Integrity.{IsWellFormed, ParentIn}
use replay_kit.Storage.Records.{upsert_span, check_parent}
use replay_kit.Storage.State.{
  MemoryState, InMemoryStorage, get_run, get_span, span_at, ensure_run_exists, ensure_span_exists,
}
use replay_kit.Workspace.Archive.{CaptureOptions}
use replay_kit.Workspace.Points.{WorkspacePhase}

check_parent-ok :
    (s : MemoryState) (r : RunId) (i : SpanId) (parent : Option SpanId)
    → ParentIn s r i parent
    → check_parent s r i parent ≡ ok tt
unfolding check_parent ensure_span_exists
check_parent-ok s r i none h = refl
check_parent-ok s r i (some p) (other, there) = ground (arith, string_eq.equal_iff p i)

-- A span that is recorded can be written again, with the same parent.
upsert_span-ok :
    (s : MemoryState) (old new : SpanRecord)
    → IsWellFormed s
    → span_at s new.run_id new.span_id ≡ some old
    → new.parent_span_id ≡ old.parent_span_id
    → upsert_span new s ≡ ok (record s { spans = insert2 new.run_id new.span_id new s.spans })
unfolding upsert_span ensure_run_exists
upsert_span-ok s old new w found same =
    let v = w.spans new.run_id new.span_id old found in
    let parent = check_parent-ok s new.run_id new.span_id old.parent_span_id v.parent in
    rw (v.run, same, parent) refl

capture_root-ok :
    (host : Host) (options : CaptureOptions) (run : RunRecord) (span_id : Option SpanId)
    (phase : WorkspacePhase) (at : ℕ) (root : Option String) (st : InMemoryStorage)
    → capture_root host options run span_id phase at root st
      ≡ (ok tt, (capture_root host options run span_id phase at root st).1)
unfolding capture_root
capture_root-ok host options run span_id phase at none st = refl
capture_root-ok host options run span_id phase at (some root) st = refl

-- A capture never fails the method that asks for it.
pub capture_workspace-ok :
    (host : Host) (options : CaptureOptions) (run : RunRecord) (span_id : Option SpanId)
    (phase : WorkspacePhase) (at : ℕ) (st : InMemoryStorage)
    → capture_workspace host options run span_id phase at st
      ≡ (ok tt, (capture_workspace host options run span_id phase at st).1)
unfolding capture_workspace
capture_workspace-ok host options run span_id phase at st =
    capture_root-ok host options run span_id phase at run.workspace_root st

-- A span as an update ends it: what the update says, and all else as it was.
pub record IsEnded (update : EndSpan) (old new : SpanRecord) : Type 0 where
  pub ended_at : new.ended_at ≡ some update.ended_at
  pub status : new.status ≡ update.status
  pub output_artifact_ids : new.output_artifact_ids ≡ update.output_artifact_ids
  pub snapshot_id : new.snapshot_id ≡ update.snapshot_id
  pub output_fingerprint : new.output_fingerprint ≡ update.output_fingerprint
  pub error_code : new.error_code ≡ update.error_code
  pub error_summary : new.error_summary ≡ update.error_summary
  pub cost : new.cost ≡ update.cost
  pub else_kept :
      record new {
        ended_at = old.ended_at;
        status = old.status;
        output_artifact_ids = old.output_artifact_ids;
        snapshot_id = old.snapshot_id;
        output_fingerprint = old.output_fingerprint;
        error_code = old.error_code;
        error_summary = old.error_summary;
        cost = old.cost;
      }
      ≡ old

ended_span-IsEnded :
    (update : EndSpan) (span : SpanRecord) → IsEnded update span (ended_span update span)
unfolding ended_span
ended_span-IsEnded update span = record {
  ended_at = refl;
  status = refl;
  output_artifact_ids = refl;
  snapshot_id = refl;
  output_fingerprint = refl;
  error_code = refl;
  error_summary = refl;
  cost = refl;
  else_kept = refl;
}

module _ (host : Host) (options : CaptureOptions) (run_id : RunId) (span_id : SpanId)
    (update : EndSpan) (st : InMemoryStorage) (span : SpanRecord) where
  -- A span that has ended stays as it is: ending it is refused, and changes nothing.
  pub end_span-refused :
      span_at st.state run_id span_id ≡ some span
      → is_terminal span ≡ true
      → end_span host options run_id span_id update st
        ≡ (err (invalid_input (already_ended span_id run_id)), st)
  unfolding end_span get_span ◌>>=◌ ◌>>◌
  end_span-refused found ended = rw (found, ended) refl

  -- The store with the ended span in place of the span.
  abbrev pub written : SpanRecord → InMemoryStorage
  written ended = record st {
    state = record st.state { spans = insert2 run_id span_id ended st.state.spans };
  }

  write-ended :
      IsWellFormed st.state
      → span_at st.state run_id span_id ≡ some span
      → upsert_span (ended_span update span) st.state ≡ ok (written (ended_span update span)).state
  unfolding ended_span
  write-ended w found =
      let v = w.spans run_id span_id span found in
      rw (← v.run_key, ← v.key)
        (upsert_span-ok st.state span (ended_span update span) w (simp (v.run_key, v.key) found)
          refl)

  -- The store after `end_span`: the workspace is captured last.
  abbrev pub after_end : SpanRecord → RunRecord → InMemoryStorage
  after_end ended run =
      (capture_workspace host options run (some span.span_id) WorkspacePhase.after update.ended_at
        (written ended)).1

  module _ (run : RunRecord) (w : IsWellFormed st.state)
      (found : span_at st.state run_id span_id ≡ some span)
      (run_found : get run_id st.state.runs ≡ some run) (running : is_terminal span ≡ false)
      (late : span.started_at ≤ update.ended_at)
      (outputs : check_outputs host options run_id span_id update.output_artifact_ids st
        ≡ (ok tt, st))
      (snapshot : check_snapshot host options run_id span_id update.snapshot_id st
        ≡ (ok tt, st)) where
    -- In a well-formed store, a span that has not ended, with an end that is not before its start and
    -- outputs and a snapshot that pass their checks, is ended by `end_span`: the call returns it with
    -- the end, status, outputs, snapshot, fingerprint, error and cost of the update and all else as
    -- it was, and afterwards it is recorded so and every other span as before.
    pub end_span-ends :
        (ended : SpanRecord) × IsEnded update span ended
        × (end_span host options run_id span_id update st ≡ (ok ended, after_end ended run))
        × ((r : RunId) (i : SpanId)
            → span_at (after_end ended run).state r i
              ≡ (if run_id == r && span_id == i then some ended else span_at st.state r i))
    unfolding end_span get_span get_run ended_span ◌>>=◌ ◌>>◌
    end_span-ends =
        let ended : SpanRecord = ended_span update span in
        let in_time : leb span.started_at update.ended_at ≡ true = ground arith in
        let captured =
          capture_workspace-ok host options run (some span.span_id) WorkspacePhase.after
            update.ended_at (written ended) in
        let same =
          capture_workspace-same host options run (some span.span_id) WorkspacePhase.after
            update.ended_at (written ended) in
        (
          ended,
          ended_span-IsEnded update span,
          rw (found, running, in_time, outputs, snapshot, write-ended w found, run_found)
              (rw captured refl),
          λ r i. rw same.1 (get2-insert2 run_id r span_id i ended st.state.spans),
        )
