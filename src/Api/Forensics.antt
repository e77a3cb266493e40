-- ===== src/Api/Forensics.antt =====
-- The failures of a run, as `run_forensics` of crates/api/src/lib.rs finds them.
use replay_kit.Common.{
  ℕ, zero, suc, ◌+◌, String, Bool, true, false, ◌&&◌, ◌||◌, Option, none, some, List, [], ◌∷◌, keep,
  length, member, map,
}
use replay_kit.Common.Eq.{◌==◌, string_eq, nat_eq}
use replay_kit.Common.Map.{Map, get}
use replay_kit.Common.Tests.{ltb, if◌then◌else◌}
use replay_kit.Api.Tree.{RunTreeNodes, node, nil, cons}
use replay_kit.Model.Enums.{SpanStatus, EdgeKind, span_status_eq, edge_kind_eq}
use replay_kit.Model.Records.{SpanId, SpanRecord, SpanEdgeRecord}
use replay_kit.Replay.Layout.{parent_in}

-- The deepest failure so far: its depth, when it started, and the span.
pub record Deepest : Type 0 where
  pub depth : ℕ
  pub started_at : ℕ
  pub span_id : SpanId

abbrev pub is_deeper : ℕ → ℕ → Option Deepest → Bool
is_deeper depth started_at none = true
is_deeper depth started_at (some best) =
    ltb best.depth depth || depth == best.depth && ltb best.started_at started_at

unfoldable pub consider : SpanRecord → ℕ → Option Deepest → Option Deepest
consider span depth best =
    if span.status == SpanStatus.failed && is_deeper depth span.started_at best
    then some (record { depth = depth; started_at = span.started_at; span_id = span.span_id })
    else best

unfoldable pub walk_failures : RunTreeNodes → ℕ → Option Deepest → Option Deepest
walk_failures nil depth best = best
walk_failures (cons (node span children) rest) depth best =
    walk_failures rest depth (walk_failures children (depth + 1) (consider span depth best))

abbrev pub deepest_id : Option Deepest → Option SpanId
deepest_id none = none
deepest_id (some best) = some best.span_id

unfoldable pub find_deepest_failure : RunTreeNodes → Option SpanId
find_deepest_failure nodes = deepest_id (walk_failures nodes 0 none)

-- A dependency that failed, with the number of steps to it.
pub record FailingDep : Type 0 where
  pub depth : ℕ
  pub span_id : SpanId

abbrev pub one_deeper : SpanId → Option FailingDep → FailingDep
one_deeper dependency none = record { depth = 1; span_id = dependency }
one_deeper dependency (some dep) = record dep { depth = dep.depth + 1 }

abbrev pub better : FailingDep → Option FailingDep → Option FailingDep
better candidate none = some candidate
better candidate (some best) = if ltb best.depth candidate.depth then some candidate else some best

abbrev pub is_failed_span : Option SpanRecord → Bool
is_failed_span none = false
is_failed_span (some span) = span.status == SpanStatus.failed

abbrev pub combine :
    SpanId → Option (Option FailingDep) → Option FailingDep → Option (Option FailingDep)
combine dependency none best = none
combine dependency (some found) best = some (better (one_deeper dependency found) best)

abbrev pub next_best :
    Option (Option FailingDep)
    → (Option FailingDep → Option (Option FailingDep))
    → Option (Option FailingDep)
next_best none rest = none
next_best (some best) rest = rest best

module _ (span_map : Map SpanId SpanRecord) (edges : List SpanEdgeRecord) where
  -- The loop over the edges of one span, with the walk from a dependency.
  unfoldable pub over_edges :
      (SpanId → Option (Option FailingDep))
      → SpanId
      → List SpanEdgeRecord
      → Option FailingDep
      → Option (Option FailingDep)
  over_edges walk span_id [] best = some best
  over_edges walk span_id (edge ∷ rest) best =
      elim (edge.kind == EdgeKind.data_depends_on
        && edge.from_span_id == span_id
        && is_failed_span (get edge.to_span_id span_map)) [
          | false ↦ over_edges walk span_id rest best
          | true ↦
              next_best (combine edge.to_span_id (walk edge.to_span_id) best)
                (over_edges walk span_id rest)
        ]

  -- The recursion, with a bound on its depth: a span that is being visited is not visited again.
  unfoldable pub walk_deps : ℕ → List SpanId → SpanId → Option (Option FailingDep)
  walk_deps zero visiting span_id = none
  walk_deps (suc fuel) visiting span_id = elim (member span_id visiting) [
    | true ↦ some none
    | false ↦ over_edges (walk_deps fuel (span_id ∷ visiting)) span_id edges none
  ]

  abbrev pub dep_id : Option FailingDep → Option SpanId
  dep_id none = none
  dep_id (some dep) = some dep.span_id

  -- Every span on the way but the first is at the end of an edge.
  unfoldable pub find_deepest_failing_dep : SpanId → Option (Option SpanId)
  find_deepest_failing_dep span_id = elim (walk_deps (suc (suc (suc (length edges)))) [] span_id) [
    | none ↦ none
    | some found ↦ some (dep_id found)
  ]

  -- The path is collected from the target up, and then turned round. No answer stands for a walk that
  -- does not end.
  unfoldable pub path_from : ℕ → Option SpanId → List SpanId → Option (List SpanId)
  path_from fuel none path = some path
  path_from zero (some span_id) path = none
  path_from (suc fuel) (some span_id) path =
      path_from fuel (parent_in (get span_id span_map)) (span_id ∷ path)

  unfoldable pub build_path_to_root : SpanId → Option (List SpanId)
  build_path_to_root target = path_from (suc (suc (length span_map))) (some target) []

-- `min_by_key`: the first of the least.
abbrev pub earlier_of : SpanRecord → Option SpanRecord → SpanRecord
earlier_of span none = span
earlier_of span (some other) = if ltb other.started_at span.started_at then other else span

unfoldable pub first_started : List SpanRecord → Option SpanRecord
first_started [] = none
first_started (span ∷ spans) = some (earlier_of span (first_started spans))

pub record BlockedSpanView : Type 0 where
  pub span_id : SpanId
  pub name : String
  pub reason : Option String

unfoldable pub blocked_views : List SpanRecord → List BlockedSpanView
blocked_views spans =
    map (λ span. record { span_id = span.span_id; name = span.name; reason = span.error_summary })
      (keep (λ span. span.status == SpanStatus.blocked) spans)
