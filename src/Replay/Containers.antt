-- ===== src/Replay/Containers.antt =====
-- `replay_spans` of crates/replay-engine/src/lib.rs: the loop over the dirty spans, and the containers, whose
-- status is derived again after their children.
use text.Mathlib.Text.{starts_with}
use replay_kit.Common.{ℕ, suc, String, Bool, true, false, Option, none, some, List, [], ◌∷◌, keep}
use replay_kit.Common.Action.{pure, write, ◌>>=◌, ◌>>◌}
use replay_kit.Common.Eq.{◌==◌, string_eq, option_eq, negate}
use replay_kit.Common.Map.{get, contains_key}
use replay_kit.Common.Result.{Result, ok, err}
use replay_kit.Common.Tests.{if◌then◌else◌}
use replay_kit.Model.Records.{RunId, SpanId, ArtifactId, SpanRecord, BranchRequest}
use replay_kit.Model.Value.{Document}
use replay_kit.Replay.Effective.{recorded_span}
use replay_kit.Replay.Engine.{
  Machine, Replaying, ExecutorRegistry, ExecutionResult, ReplayExecutionContext, ChildOutcome,
  RecordedSpan, new_context, calls, reads, looks,
}
use replay_kit.Replay.Persist.{mark_blocked, mark_patched}
use replay_kit.Replay.Plan.{PlanState, containers_of}
use replay_kit.Replay.Respan.{Progress, no_progress, replay_span, execute, forked}
use replay_kit.Replay.Rules.{is_container}
use replay_kit.Replay.Sandbox.{ReplayWorkspace}
use replay_kit.Replay.Timeline.{Timeline, finish}
use replay_kit.Storage.Records.{upsert_span}
use replay_kit.Storage.State.{get_span}
use replay_kit.Workspace.Points.{on_state}

module _ {W : Type 0} (machine : Machine W) (registry : ExecutorRegistry W)
    (request : BranchRequest) (state : PlanState) (target_run_id : RunId)
    (patch_artifact : ArtifactId) (workspace : ReplayWorkspace) (line : Timeline) (now : ℕ) where
  open state use {layout}

  abbrev pub replays : SpanRecord → Bool
  replays span =
      if contains_key span.span_id layout.dirty then negate (is_container span.kind) else false

  abbrev pub replay_if : Bool → SpanRecord → Progress → Replaying W Progress
  replay_if false span p = pure p
  replay_if true span p =
      replay_span machine registry request state target_run_id patch_artifact workspace line now
        span p

  unfoldable pub replay_dirty : List SpanRecord → Progress → Replaying W Progress
  replay_dirty [] p = pure p
  replay_dirty (span ∷ spans) p = replay_if (replays span) span p >>= replay_dirty spans

  -- The reason why a dirty container itself is blocked, and not by a child.
  abbrev pub own_reason : Bool → Option String → Option String
  own_reason true (some reason) = if starts_with reason "child span" then none else some reason
  own_reason _ _ = none

  unfoldable pub container_reason : SpanId → Option String
  container_reason span_id =
      own_reason (contains_key span_id layout.dirty) (get span_id state.blocked)

  unfoldable pub child_outcomes : List SpanRecord → Replaying W (List ChildOutcome)
  child_outcomes [] = pure []
  child_outcomes (child ∷ children) = do
    replayed ← looks (get_span target_run_id child.span_id)
    rest ← child_outcomes children
    pure (record { recorded = child; replayed = replayed } ∷ rest)

  abbrev pub children_of : SpanId → List SpanRecord
  children_of span_id = keep (λ span. span.parent_span_id == some span_id) layout.spans

  unfoldable pub container_context : RecordedSpan → List ChildOutcome → ReplayExecutionContext
  container_context recorded children =
      record (new_context request.source_run_id target_run_id request.fork_span_id) {
        workspace = some workspace;
        recorded = some recorded;
        children = children;
      }

  abbrev pub mark_fork : Bool → Document → Document
  mark_fork true attributes = mark_patched request attributes
  mark_fork false attributes = attributes

  unfoldable pub derived_span : SpanRecord → SpanRecord → ExecutionResult → SpanRecord
  derived_span container target_span result = record target_span {
    status = result.status;
    error_summary = result.error_summary;
    ended_at = some now;
    attributes =
        mark_fork
          (forked machine registry request state target_run_id patch_artifact workspace line now
            container.span_id)
          target_span.attributes;
  }

  abbrev pub block_counted : SpanRecord → String → Progress → Replaying W Progress
  block_counted target_span reason p =
      calls (mark_blocked target_span reason now) >> pure (record p { blocked = suc p.blocked })

  abbrev pub store_derived :
      SpanRecord
      → SpanRecord
      → Bool
      → Result String ExecutionResult
      → Progress
      → Replaying W Progress
  store_derived container target_span is_dirty (ok result) p =
      calls (write (on_state (upsert_span (derived_span container target_span result)))) >> pure p
  store_derived container target_span true (err reason) p = block_counted target_span reason p
  store_derived container target_span false (err reason) p = pure p

  abbrev pub derive_unless :
      Option String → SpanRecord → SpanRecord → Progress → Replaying W Progress
  derive_unless (some reason) container target_span p = block_counted target_span reason p
  derive_unless none container target_span p = do
    recorded ← reads (recorded_span machine container)
    children ← child_outcomes (children_of container.span_id)
    result ← execute machine registry container (container_context recorded children)
    store_derived container target_span (contains_key container.span_id layout.dirty) result p

  unfoldable pub replay_container : SpanRecord → Progress → Replaying W Progress
  replay_container container p = looks (get_span target_run_id container.span_id) >>= λ target_span.
      derive_unless (container_reason container.span_id) container target_span p

  unfoldable pub replay_containers : List SpanRecord → Progress → Replaying W Progress
  replay_containers [] p = pure p
  replay_containers (container ∷ containers) p =
      replay_container container p >>= replay_containers containers

  unfoldable pub replay_spans : Replaying W Progress
  replay_spans = do
    p ← replay_dirty layout.spans no_progress
    _ ← finish machine line p.skip
    replay_containers (containers_of machine registry request layout state.rollup) p
