-- ===== src/Replay/Respan.antt =====
-- One round of the loop of `replay_spans` in crates/replay-engine/src/lib.rs: what becomes of one dirty
-- span that is no container.
use replay_kit.Common.{
  ℕ, suc, String, Bool, true, false, ◌&&◌, ◌||◌, Option, none, some, List, [], ◌∷◌, find,
}
use replay_kit.Common.Action.{ask, pure, lift, write, ◌>>=◌, ◌>>◌}
use replay_kit.Common.Eq.{string_eq, string_ord, negate}
use replay_kit.Common.Map.{Map, get, insert, is_some}
use replay_kit.Common.Result.{Result, ok, err, map_err, ok_or}
use replay_kit.Common.Table.{or_empty}
use replay_kit.Model.Records.{RunId, SpanId, ArtifactId, SnapshotId, SpanRecord, BranchRequest}
use replay_kit.Model.Value.{Value, Document, insert_field, document_beq}
use replay_kit.Replay.Effective.{effective_span, span_env, recorded_span, inputs_fingerprint}
use replay_kit.Replay.Engine.{
  ReplayError, out_of_range, endless, Machine, Replaying, ExecutorRegistry, ExecutionResult,
  ReplayExecutionContext, new_context, RecordedSpan, calls, reads, looks,
}
use replay_kit.Replay.KeyValues.{Input}
use replay_kit.Replay.Persist.{
  mark_blocked, persist_executor_artifacts, persist_executor_snapshot, satisfy_with_patch,
  mark_patched,
}
use replay_kit.Replay.Plan.{PlanState, is_fork, inherits, satisfies, patch_for, waits_message}
use replay_kit.Replay.Rules.{reset_span_for_replay}
use replay_kit.Replay.Sandbox.{ReplayWorkspace}
use replay_kit.Replay.Timeline.{Timeline, index_of_before, advance_to}
use replay_kit.Replay.Upstream.{Outcome, upstream_unchanged}
use replay_kit.Replay.Upstream as Upstream
use replay_kit.Storage.Records.{upsert_span}
use replay_kit.Storage.State.{get_span}
use replay_kit.Workspace.Points.{on_state}

-- The outcomes so far, the spans whose recorded effects are not applied again, and the counts.
pub record Progress : Type 0 where
  pub outcomes : Map SpanId Outcome
  pub skip : List SpanId
  pub executed : ℕ
  pub reused : ℕ
  pub blocked : ℕ

abbrev pub no_progress : Progress
no_progress = record { outcomes = []; skip = []; executed = 0; reused = 0; blocked = 0 }

abbrev pub is_blocked_outcome : Option Outcome → Bool
is_blocked_outcome (some Upstream.blocked) = true
is_blocked_outcome _ = false

abbrev pub or_reason : Option String → Option SpanId → Option String
or_reason (some reason) up = some reason
or_reason none none = none
or_reason none (some up) = some (waits_message up)

unfoldable pub env_document : Map String String → Document
env_document [] = Document.empty
env_document ((key, value) ∷ rest) = Document.entry key (Value.text value) (env_document rest)

abbrev pub with_env : Map String String → Map String String → Document → Document
with_env [] env attributes = attributes
with_env (e ∷ es) env attributes = insert_field "env" (Value.object (env_document env)) attributes

-- A refusal to run is no error: the span is blocked.
abbrev pub refused : {A : Type 0} → Result ReplayError A → Result ReplayError (Result String A)
refused (ok a) = ok (ok a)
refused (err (ReplayError.blocked reason)) = ok (err reason)
refused (err e) = err e

module _ {W : Type 0} (machine : Machine W) (registry : ExecutorRegistry W) where
  unfoldable pub execute :
      SpanRecord → ReplayExecutionContext → Replaying W (Result String ExecutionResult)
  execute span context s =
      let (r, w) = registry.execute span context s.world in (refused r, record s { world = w })

  abbrev pub execute_checked :
      Result String (Unit {0})
      → SpanRecord
      → ReplayExecutionContext
      → Replaying W (Result String ExecutionResult)
  execute_checked (err reason) span context = pure (err reason)
  execute_checked (ok done) span context = execute span context

  unfoldable pub check_and_execute :
      SpanRecord → ReplayExecutionContext → Replaying W (Result String ExecutionResult)
  check_and_execute span context = ask (λ s. registry.check span context s.world) >>= λ checked.
      execute_checked checked span context

  module _ (request : BranchRequest) (state : PlanState) (target_run_id : RunId)
      (patch_artifact : ArtifactId) (workspace : ReplayWorkspace) (line : Timeline) (now : ℕ) where
    open state use {layout}

    abbrev pub forked : SpanId → Bool
    forked span_id = is_fork machine registry request layout span_id

    unfoldable pub blocked_before : SpanId → Map SpanId Outcome → Option SpanId
    blocked_before span_id outcomes =
        find (λ up. is_blocked_outcome (get up outcomes)) (or_empty (get span_id layout.upstream))

    unfoldable pub block_reason : SpanId → Map SpanId Outcome → Option String
    block_reason span_id outcomes =
        or_reason (get span_id state.blocked) (blocked_before span_id outcomes)

    unfoldable pub execution_context : Map String String → RecordedSpan → ReplayExecutionContext
    execution_context env recorded =
        record (new_context request.source_run_id target_run_id request.fork_span_id) {
          workspace = some workspace;
          env = env;
          recorded = some recorded;
        }

    unfoldable pub add_outcome : SpanId → Outcome → Progress → Progress
    add_outcome span_id outcome p = record p { outcomes = insert span_id outcome p.outcomes }

    abbrev pub skipping : SpanId → Progress → Progress
    skipping span_id p = record p { skip = span_id ∷ p.skip }

    unfoldable pub give_up : SpanId → SpanRecord → String → Progress → Replaying W Progress
    give_up span_id target_span reason p =
        calls (mark_blocked target_span reason now)
        >> pure (record (add_outcome span_id Upstream.blocked (skipping span_id p)) {
          blocked = suc p.blocked;
        })

    -- The attributes that mark the span of the fork.
    abbrev pub marked : Bool → Map String String → Document → Document
    marked false env attributes = attributes
    marked true env attributes = with_env layout.patch.env env (mark_patched request attributes)

    abbrev pub new_fingerprint : Bool → Document → Map String String → Option String → Option String
    new_fingerprint false attributes env old = old
    new_fingerprint true attributes env old = some (inputs_fingerprint machine attributes env)

    unfoldable pub prepared_span :
        SpanRecord → SpanRecord → SpanRecord → Map String String → Bool → SpanRecord
    prepared_span source_span effective target_span env in_env_scope =
        let changed =
          negate (document_beq effective.attributes source_span.attributes) || in_env_scope in
        record (reset_span_for_replay target_span) {
          attributes = marked (forked source_span.span_id) env effective.attributes;
          input_fingerprint =
              new_fingerprint changed effective.attributes env target_span.input_fingerprint;
        }

    unfoldable pub executed_span :
        SpanRecord → ExecutionResult → List ArtifactId → Option SnapshotId → SpanRecord
    executed_span span result outputs snapshot_id = record span {
      status = result.status;
      output_artifact_ids = outputs;
      output_fingerprint = result.output_fingerprint;
      snapshot_id = snapshot_id;
      error_summary = result.error_summary;
      cost = result.cost;
      ended_at = some now;
    }

    abbrev pub store_result :
        SpanId → SpanRecord → Result String ExecutionResult → Progress → Replaying W Progress
    store_result span_id span (err reason) p = give_up span_id span reason p
    store_result span_id span (ok result) p = do
      outputs ← calls (
          persist_executor_artifacts machine.env target_run_id span.span_id result.output_artifacts)
      snapshot_id ←
          calls (persist_executor_snapshot machine.env target_run_id span.span_id result.snapshot)
      calls (write (on_state (upsert_span (executed_span span result outputs snapshot_id))))
      pure (record (add_outcome span_id Upstream.executed (skipping span_id p)) {
        executed = suc p.executed;
      })

    -- An environment that cannot be read is an error of the whole replay.
    abbrev pub env_or_fail :
        Option (Input (Map String String)) → Result ReplayError (Map String String)
    env_or_fail none = err endless
    env_or_fail (some r) = map_err (λ e. ReplayError.blocked (machine.input_message e)) r

    abbrev pub run_effective :
        SpanRecord → SpanRecord → Bool → Input SpanRecord → Progress → Replaying W Progress
    run_effective source_span target_span in_env_scope (err e) p =
        give_up source_span.span_id target_span (machine.input_message e) p
    run_effective source_span target_span in_env_scope (ok effective) p = do
      env ← lift (env_or_fail (span_env machine source_span (some in_env_scope) layout.patch))
      recorded ← reads (recorded_span machine source_span)
      let span = prepared_span source_span effective target_span env in_env_scope
      result ← check_and_execute effective (execution_context env recorded)
      store_result source_span.span_id span result p

    unfoldable pub run_span : SpanRecord → SpanRecord → Bool → Progress → Replaying W Progress
    run_span source_span target_span in_env_scope p =
        ask (λ s.
          effective_span machine source_span target_run_id
            (patch_for machine registry request layout source_span.span_id) s.store)
        >>= λ effective. run_effective source_span target_span in_env_scope effective p

    -- Early cutoff: everything that the span was dirty for was replayed to the recorded result.
    unfoldable pub reused_span : SpanRecord → SpanRecord
    reused_span span = record span {
      attributes = insert_field "replay" (Value.text "reused: upstream unchanged") span.attributes;
    }

    abbrev pub reuse_or_run :
        Bool → SpanRecord → SpanRecord → Bool → Progress → Replaying W Progress
    reuse_or_run true source_span target_span in_env_scope p =
        calls (write (on_state (upsert_span (reused_span target_span))))
        >> pure
            (record (add_outcome source_span.span_id Upstream.reused p) { reused = suc p.reused })
    reuse_or_run false source_span target_span in_env_scope p =
        run_span source_span target_span in_env_scope p

    abbrev pub unchanged_if : Bool → SpanRecord → Progress → Replaying W Bool
    unchanged_if false source_span p = pure false
    unchanged_if true source_span p = do
      entry ← lift (ok_or (get source_span.span_id layout.dirty) out_of_range)
      looks (λ s. upstream_unchanged p.outcomes layout.span_map s target_run_id entry)

    unfoldable pub can_reuse : SpanRecord → Bool → Progress → Replaying W Bool
    can_reuse source_span in_env_scope p =
        unchanged_if
          (negate (forked source_span.span_id)
            && negate in_env_scope
            && negate (is_some state.override_archive))
          source_span p

    abbrev pub unless_blocked :
        Option String → SpanRecord → SpanRecord → Progress → Replaying W Progress
    unless_blocked (some reason) source_span target_span p =
        give_up source_span.span_id target_span reason p
    unless_blocked none source_span target_span p = do
      in_env_scope ←
          lift (ok_or (inherits machine registry request layout source_span.span_id) endless)
      reuse ← can_reuse source_span in_env_scope p
      reuse_or_run reuse source_span target_span in_env_scope p

    abbrev pub satisfy_or_run : Bool → SpanRecord → SpanRecord → Progress → Replaying W Progress
    satisfy_or_run true source_span target_span p = do
      span ← satisfy_with_patch machine.env request target_span patch_artifact now
      calls (write (on_state (upsert_span span)))
      pure (add_outcome source_span.span_id Upstream.satisfied p)
    satisfy_or_run false source_span target_span p =
        unless_blocked (block_reason source_span.span_id p.outcomes) source_span target_span p

    -- The sandbox is brought to the point right before the span, where there is one.
    abbrev pub advance_before : Option ℕ → List SpanId → Replaying W (Unit {0})
    advance_before none skip = pure tt
    advance_before (some index) skip = advance_to machine line index skip

    unfoldable pub replay_span : SpanRecord → Progress → Replaying W Progress
    replay_span source_span p = do
      advance_before (index_of_before source_span.span_id line.points) p.skip
      target_span ← looks (get_span target_run_id source_span.span_id)
      satisfy_or_run
          (forked source_span.span_id
            && satisfies machine registry request layout layout.disposition)
          source_span target_span p
