-- ===== src/Replay/Dirty.antt =====
-- `compute_dirty_map` and `push_dirty` of crates/replay-engine/src/lib.rs: the spans that a patch of
-- one span makes dirty, found breadth first.
pub mod Spec
pub mod Push
pub mod Grew
pub mod Loop
pub mod Exact
pub mod Keyed
use replay_kit.Common.{
  ℕ, zero, suc, ◌+◌, String, Bool, Option, none, some, List, [], ◌∷◌, ◌++◌, member, length,
}
use replay_kit.Common.Eq.{◌==◌, string_eq, string_ord}
use replay_kit.Common.Map.{Map, get, insert}
use replay_kit.Common.Table.{push, or_empty}
use replay_kit.Common.Tests.{if◌then◌else◌}
use replay_kit.Model.Enums.{
  EdgeKind, DirtyReason, edge_kind_eq, dirty_reason_eq, patched_input, upstream_output_changed,
  dependency_unknown,
}
use replay_kit.Model.Records.{SpanId, SpanRecord, SpanEdgeRecord, DirtySpanRecord}

abbrev pub Successors : Type 0
Successors = Map SpanId (List SpanId)

-- The children of each span: one round of the fold over the spans, and the fold.
unfoldable pub add_child : Successors → SpanId → Option SpanId → Successors
add_child acc span_id none = acc
add_child acc span_id (some parent) = push parent span_id acc

unfoldable pub children_from : Successors → List SpanRecord → Successors
children_from acc [] = acc
children_from acc (span ∷ spans) =
    children_from (add_child acc span.span_id span.parent_span_id) spans

-- The spans whose data depends on each span, in the order of the edges.
unfoldable pub add_dependent : Successors → SpanEdgeRecord → Successors
add_dependent acc edge =
    if edge.kind == EdgeKind.data_depends_on
    then push edge.to_span_id edge.from_span_id acc
    else acc

unfoldable pub dependents_from : Successors → List SpanEdgeRecord → Successors
dependents_from acc [] = acc
dependents_from acc (edge ∷ edges) = dependents_from (add_dependent acc edge) edges

-- The variables of the search: the map of dirty spans, and the queue.
pub record Search : Type 0 where
  pub dirty : Map SpanId DirtySpanRecord
  pub queue : List SpanId

-- `if !list.contains(&x) { list.push(x); }`.
abbrev pub add_reason : DirtyReason → List DirtyReason → List DirtyReason
add_reason x xs = if member x xs then xs else xs ++ x ∷ []

abbrev pub add_trigger : SpanId → List SpanId → List SpanId
add_trigger x xs = if member x xs then xs else xs ++ x ∷ []

-- The record of a span that was dirty before, and of one that was not.
unfoldable pub once_more : DirtyReason → SpanId → DirtySpanRecord → DirtySpanRecord
once_more reason triggered_by existing = record existing {
  reasons = add_reason reason existing.reasons;
  triggered_by = add_trigger triggered_by existing.triggered_by;
}

unfoldable pub newly_dirty : SpanId → DirtyReason → SpanId → DirtySpanRecord
newly_dirty span_id reason triggered_by = record {
  span_id = span_id;
  reasons = reason ∷ [];
  triggered_by = triggered_by ∷ [];
}

unfoldable pub push_dirty : SpanId → DirtyReason → SpanId → Search → Search
push_dirty span_id reason triggered_by s = elim (get span_id s.dirty) [
  | some existing ↦ record s {
    dirty = insert span_id (once_more reason triggered_by existing) s.dirty;
  }
  | none ↦ record {
    dirty = insert span_id (newly_dirty span_id reason triggered_by) s.dirty;
    queue = s.queue ++ span_id ∷ [];
  }
]

-- The loop over the data dependents of `current`.
unfoldable pub push_dependents : SpanId → List SpanId → Search → Search
push_dependents current [] s = s
push_dependents current (dependent ∷ rest) s =
    push_dependents current rest (push_dirty dependent upstream_output_changed current s)

-- The loop over the children of `current`: those that depend on its data are passed over.
unfoldable pub push_child : SpanId → List SpanId → SpanId → Search → Search
push_child current dependents child s =
    if member child dependents then s else push_dirty child dependency_unknown current s

unfoldable pub push_children : SpanId → List SpanId → List SpanId → Search → Search
push_children current dependents [] s = s
push_children current dependents (child ∷ rest) s =
    push_children current dependents rest (push_child current dependents child s)

module _ (children dependents : Successors) where
  -- One round of the `while` loop, after `current` left the queue.
  unfoldable pub expand : SpanId → Search → Search
  expand current s =
      let next = or_empty (get current dependents) in
      push_children current next (or_empty (get current children)) (push_dependents current next s)

  unfoldable pub loop : ℕ → Search → Option (Map SpanId DirtySpanRecord)
  loop zero s = elim s.queue [ [] ↦ some s.dirty | _ ∷ _ ↦ none ]
  loop (suc fuel) s = elim s.queue [
    | [] ↦ some s.dirty
    | current ∷ rest ↦ loop fuel (expand current (record s { queue = rest }))
  ]

-- The search before the loop.
unfoldable pub start : SpanId → Search
start fork_span_id = record {
  dirty =
      insert fork_span_id
        (record { span_id = fork_span_id; reasons = patched_input ∷ []; triggered_by = [] }) [];
  queue = fork_span_id ∷ [];
}

-- Every round takes a span from the queue and no span is queued twice, so there are at most as many
-- rounds as spans and edges, and one for the fork span.
unfoldable pub compute_dirty_map :
    SpanId → List SpanRecord → List SpanEdgeRecord → Option (Map SpanId DirtySpanRecord)
compute_dirty_map fork_span_id spans edges =
    loop (children_from [] spans) (dependents_from [] edges) (length spans + length edges + 1)
      (start fork_span_id)
