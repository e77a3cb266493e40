-- ===== src/Examples/Parting.antt =====
-- A plan of a fork at a concrete store.
use replay_kit.Common.{Bool, true, false, [], In, map, member, ◌≡◌, refl, inl}
use replay_kit.Common.Eq.{string_eq}
use replay_kit.Common.Result.{Result, ok, err}
use replay_kit.Examples.Fixtures.{some_store, lone_span}
use replay_kit.Examples.Sandboxing.{some_machine, some_registry, some_request}
use replay_kit.Replay.Parted.{OneOf, plan_state-OneOf}
use replay_kit.Replay.Plan.{PlanState, plan_state}
use replay_kit.Common.Lists.{find}
use replay_kit.Common.Map.{get, insert}
use replay_kit.Common.Sort.{sort_by_key}
use replay_kit.Common.Table.{insert2}
use replay_kit.Common.Text.{contains_text}
use replay_kit.Model.Records.{new_run}
use replay_kit.Model.Value.{insert_field, lookup_field}
use replay_kit.Replay.Dirty.{
  add_child, children_from, compute_dirty_map, dependents_from, expand, loop, push_children,
  push_dependents, start,
}
use replay_kit.Replay.Effective.{
  bind_inputs, effective_span, in_scope, patch_attributes, patched_value, recorded_outputs,
  recorded_span, span_env,
}
use replay_kit.Replay.Inputs.{bindings_of, patch_inputs, replacement_text}
use replay_kit.Replay.Layout.{
  in_sequence, layout_of, span_map_from, upstream_of, wait_for_edges, wait_for_parent,
  wait_for_parents,
}
use replay_kit.Replay.Plan.{
  base_warnings, blocked_upstream, inherits, override_of, plan_archived, plan_layout,
  plan_predicted, plan_warned, predict_span, predict_spans, roll_up_all, roll_up_from,
}
use replay_kit.Replay.Rules.{is_container, patch_disposition, validate_patch_target}
use replay_kit.Storage.Calls.{run_calls}
use replay_kit.Storage.Records.{check_parent, list_snapshots, list_spans, upsert_span}
use replay_kit.Storage.Runs.{insert_run}
use replay_kit.Storage.State.{ensure_run_exists, get_run}
use replay_kit.Workspace.Points.{list_workspace_points, points_of}

abbrev is_ok : {E A : Type 0} → Result E A → Bool
is_ok (ok a) = true
is_ok (err e) = false

false_is_true : false ≡ true → ⊥
false_is_true h = cc

abbrev ok_of : {E A : Type 0} (r : Result E A) → is_ok r ≡ true → (a : A) × (r ≡ ok a)
ok_of (ok a) h = (a, refl)
ok_of (err e) h = absurd (false_is_true h)

plans : is_ok (plan_state some_machine some_registry some_request some_store []) ≡ true
unfolding plan_state layout_of sort_by_key list_spans get run_calls upsert_span ensure_run_exists
    insert_run insert new_run check_parent insert2 span_map_from validate_patch_target patch_inputs
    replacement_text compute_dirty_map loop start expand push_children children_from add_child
    push_dependents dependents_from get_run plan_layout base_warnings list_workspace_points
    points_of list_snapshots plan_warned override_of plan_archived predict_spans in_sequence
    predict_span is_container patch_disposition blocked_upstream find upstream_of wait_for_parents
    wait_for_parent wait_for_edges effective_span bindings_of lookup_field bind_inputs
    patch_attributes insert_field patched_value contains_text span_env inherits in_scope
    recorded_span recorded_outputs plan_predicted roll_up_all roll_up_from
plans = refl

abbrev planned :
    (state : PlanState) × (plan_state some_machine some_registry some_request some_store []
      ≡ ok state)
planned = ok_of (plan_state some_machine some_registry some_request some_store []) plans

there : In lone_span (list_spans "run" some_store.state)
unfolding list_spans sort_by_key get run_calls upsert_span ensure_run_exists insert_run insert
    new_run check_parent insert2
there = inl refl

plan_state-OneOf_example :
    OneOf
      (member "c" (map (λ e. e.span_id) planned.0.plan.dirty_spans))
      (member "c" planned.0.plan.reusable_spans)
      (member "c" planned.0.plan.rollup_spans)
plan_state-OneOf_example =
    (plan_state-OneOf some_machine some_registry some_request some_store [] planned.0 planned.1).0
      lone_span there
