-- ===== src/Replay/Plan.antt =====
-- `plan_state` and `plan_fork` of crates/replay-engine/src/lib.rs: which spans a fork runs again, which of
-- them are predicted to be blocked, and which containers get a new status.
pub mod Records
pub mod Predict
pub mod Rollup
unfoldable pub use Records.*
unfoldable pub use Predict.*
unfoldable pub use Rollup.*
use Prim.Native.String.{◌++◌}
use replay_kit.Common.{
  ℕ, zero, suc, ◌-◌, String, Bool, true, false, ◌&&◌, ◌||◌, Option, none, some, List, [], ◌∷◌,
  ◌++◌ as ◌+++◌, length, member, keep, find, push_back, map,
}
use replay_kit.Common.Eq.{◌==◌, ◌!=◌, string_eq, string_ord, option_eq, negate}
use replay_kit.Common.Map.{Map, get, insert, contains_key, values}
use replay_kit.Common.Result.{Result, ok, err, ok_or, map_err, map_ok, ◌>>=◌}
use replay_kit.Common.Sort.{sort_by_key}
use replay_kit.Common.Table.{or_empty}
use replay_kit.Common.Text.{trim}
use replay_kit.Common.Tests.{if◌then◌else◌}
use replay_kit.Model.Enums.{SpanKind, PatchType, span_kind_eq}
use replay_kit.Model.Records.{
  RunId, SpanId, SpanRecord, DirtySpanRecord, BranchRequest, SnapshotRecord,
}
use replay_kit.Model.Summary.{u64_max}
use replay_kit.Replay.Ancestry.{is_self_or_descendant}
use replay_kit.Replay.Effective.{effective_span, span_env, in_scope, recorded_span, settled}
use replay_kit.Replay.Engine.{
  ReplayError, storage, invalid_patch, endless, out_of_range, Machine, ExecutorRegistry,
  ReplayExecutionContext, new_context,
}
use replay_kit.Replay.Inputs.{PatchInputs, bindings_of, replacement_text}
use replay_kit.Replay.KeyValues.{Input}
use replay_kit.Replay.Layout.{Layout, layout_of, parent_in}
use replay_kit.Replay.Rules.{PatchDisposition, is_container, no_text, no_workspace_of}
use replay_kit.Replay.Sandbox.{ReplayWorkspace}
use replay_kit.Replay.Template.{Parsed, template_references}
use replay_kit.Replay.Timeline.{item_at, max_workspace_bytes}
use replay_kit.Storage.Error.{Checked}
use replay_kit.Storage.State.{InMemoryStorage}
use replay_kit.Workspace.Archive.{WorkspaceArchive, capture_with}
use replay_kit.Workspace.Decode.{load_workspace_archive}
use replay_kit.Workspace.Points.{WorkspacePoint}

module _ {W : Type 0} (machine : Machine W) where
  module _ (registry : ExecutorRegistry W) (request : BranchRequest) (layout : Layout) where
    unfoldable pub blocked_records : Map SpanId String → List SpanRecord → List BlockedSpanRecord
    blocked_records blocked [] = []
    blocked_records blocked (span ∷ spans) =
        let rest = blocked_records blocked spans in
        elim (get span.span_id blocked) [
          | none ↦ rest
          | some reason ↦ record { span_id = span.span_id; reason = reason } ∷ rest
        ]

    abbrev pub ids_where : (SpanRecord → Bool) → List SpanId
    ids_where test = map (λ span. span.span_id) (keep test layout.spans)

    unfoldable pub make_plan : Map SpanId String → List SpanId → List String → BranchPlan
    make_plan blocked rollup warnings =
        let blocked_ordered = blocked_records blocked layout.spans in
        record {
          source_run_id = request.source_run_id;
          fork_span_id = request.fork_span_id;
          dirty_spans = layout.dirty_spans;
          blocked_spans = map (λ b. b.span_id) blocked_ordered;
          reusable_spans = ids_where (λ span.
              negate (contains_key span.span_id layout.dirty)
              && negate (member span.span_id rollup));
          blocked = blocked_ordered;
          warnings = dedup warnings;
          rollup_spans = ids_where (λ span. member span.span_id rollup);
        }

    -- The state of a plan, from what its loops found.
    unfoldable pub plan_found :
        InMemoryStorage → W → Option WorkspaceArchive → Prediction → List SpanId → PlanState
    plan_found st w override_archive prediction rollup =
        let blocked =
          block_containers machine registry request layout st w
            (containers_of machine registry request layout rollup) prediction.blocked in
        record {
          plan = make_plan blocked rollup prediction.warnings;
          layout = layout;
          blocked = blocked;
          rollup = rollup;
          env_scope = env_scope machine registry request layout;
          override_archive = override_archive;
        }

    -- The steps of `plan_state`, from the last to the first.
    unfoldable pub plan_predicted :
        InMemoryStorage → W → Option WorkspaceArchive → Prediction → Result ReplayError PlanState
    plan_predicted st w override_archive prediction =
        map_ok (plan_found st w override_archive prediction)
          (roll_up_all machine registry request layout st w layout.dirty_spans [])

    unfoldable pub plan_archived :
        InMemoryStorage → W → List String → Option WorkspaceArchive → Result ReplayError PlanState
    plan_archived st w warnings override_archive =
        predict_spans machine registry request layout st w layout.dirty_spans
          (record { blocked = []; warnings = warnings })
        >>= plan_predicted st w override_archive

    unfoldable pub plan_warned : InMemoryStorage → W → List String → Result ReplayError PlanState
    plan_warned st w warnings =
        override_of machine request.patch_manifest.patch_type request layout.points st w
        >>= plan_archived st w warnings

    unfoldable pub plan_layout : InMemoryStorage → W → Result ReplayError PlanState
    plan_layout st w =
        base_warnings layout.points layout.base_point layout.first_dirty >>= plan_warned st w

  module _ (registry : ExecutorRegistry W) where
    unfoldable pub plan_state : BranchRequest → InMemoryStorage → W → Result ReplayError PlanState
    plan_state request st w =
        layout_of machine request st.state >>= λ layout. plan_layout registry request layout st w

    unfoldable pub plan_fork : BranchRequest → InMemoryStorage → W → Result ReplayError BranchPlan
    plan_fork request st w = map_ok (λ state. state.plan) (plan_state request st w)
