-- ===== src/Api/Retries.antt =====
-- `build_retry_groups` of crates/api/src/lib.rs: the spans that are tries of the same work, and
-- `run_forensics`.
use replay_kit.Common.{
  ℕ, zero, suc, Bool, true, false, Option, none, some, List, [], ◌∷◌, ◌++◌, keep, length, member,
  map,
}
use replay_kit.Common.Eq.{◌==◌, string_eq, string_ord}
use replay_kit.Common.Map.{Map, get, insert, map_keys}
use replay_kit.Common.Table.{push, or_empty}
use replay_kit.Common.Tests.{ltb, if◌then◌else◌}
use replay_kit.Api.Forensics.{
  BlockedSpanView, blocked_views, first_started, find_deepest_failure, find_deepest_failing_dep,
  build_path_to_root,
}
use replay_kit.Api.Tree.{RunTreeNodes}
use replay_kit.Model.Enums.{SpanStatus, EdgeKind, span_status_eq, edge_kind_eq}
use replay_kit.Model.Records.{RunId, SpanId, SpanRecord, SpanEdgeRecord}
use replay_kit.Replay.Layout.{span_map_from}

pub record RetryGroupView : Type 0 where
  pub span_ids : List SpanId
  pub final_status : SpanStatus

abbrev pub Neighbors : Type 0
Neighbors = Map SpanId (List SpanId)

unfoldable pub adjacency_from : Neighbors → List SpanEdgeRecord → Neighbors
adjacency_from acc [] = acc
adjacency_from acc (edge ∷ edges) =
    adjacency_from
      (push edge.to_span_id edge.from_span_id (push edge.from_span_id edge.to_span_id acc)) edges

-- The variables of the search: the queue, and the spans that were queued.
unfoldable pub queue_new : List SpanId → List SpanId → List SpanId → List SpanId × List SpanId
queue_new [] queue visited = (queue, visited)
queue_new (neighbor ∷ rest) queue visited =
    if member neighbor visited
    then queue_new rest queue visited
    else queue_new rest (queue ++ neighbor ∷ []) (neighbor ∷ visited)

-- The spans of a group, in the order of their ids, as the keys of a map.
abbrev pub IdSet : Type 0
IdSet = Map SpanId (Unit {0})

module _ (adjacency : Neighbors) where
  -- Every round takes a span from the queue, and no span is queued twice.
  unfoldable pub collect : ℕ → List SpanId → IdSet → List SpanId → Option (IdSet × List SpanId)
  collect fuel [] group visited = some (group, visited)
  collect zero (current ∷ queue) group visited = none
  collect (suc fuel) (current ∷ queue) group visited =
      let (longer, seen) = queue_new (or_empty (get current adjacency)) queue visited in
      collect fuel longer (insert current tt group) seen

  abbrev pub add_group : Option (List IdSet) → IdSet → Option (List IdSet)
  add_group none group = none
  add_group (some groups) group = some (group ∷ groups)

  abbrev pub group_then :
      Option (IdSet × List SpanId) → (List SpanId → Option (List IdSet)) → Option (List IdSet)
  group_then none rest = none
  group_then (some (group, visited)) rest = add_group (rest visited) group

  unfoldable pub groups_from : List SpanId → List SpanId → Option (List IdSet)
  groups_from [] visited = some []
  groups_from (span_id ∷ rest) visited = elim (member span_id visited) [
    | true ↦ groups_from rest visited
    | false ↦
        group_then (collect (length adjacency) (span_id ∷ []) [] (span_id ∷ visited))
          (groups_from rest)
  ]

-- `max_by_key`: the last of the greatest.
abbrev pub later_of : SpanRecord → Option SpanRecord → SpanRecord
later_of span none = span
later_of span (some other) = if ltb other.started_at span.started_at then span else other

unfoldable pub last_started : Map SpanId SpanRecord → List SpanId → Option SpanRecord
last_started span_map [] = none
last_started span_map (id ∷ ids) = elim (get id span_map) [
  | none ↦ last_started span_map ids
  | some span ↦ some (later_of span (last_started span_map ids))
]

abbrev pub status_or_failed : Option SpanRecord → SpanStatus
status_or_failed none = SpanStatus.failed
status_or_failed (some span) = span.status

unfoldable pub group_view : Map SpanId SpanRecord → IdSet → RetryGroupView
group_view span_map group = record {
  span_ids = map_keys group;
  final_status = status_or_failed (last_started span_map (map_keys group));
}

abbrev pub is_group : IdSet → Bool
is_group group = ltb 1 (length group)

unfoldable pub build_retry_groups :
    List SpanRecord → List SpanEdgeRecord → Option (List RetryGroupView)
build_retry_groups spans edges =
    let retries = keep (λ edge. edge.kind == EdgeKind.retry_of) edges in
    let adjacency = adjacency_from [] retries in
    elim (groups_from adjacency (map_keys adjacency) []) [
      | none ↦ none
      | some groups ↦ some (map (group_view (span_map_from [] spans)) (keep is_group groups))
    ]

pub record FailureForensicsView : Type 0 where
  pub run_id : RunId
  pub has_failure : Bool
  pub first_failed_span_id : Option SpanId
  pub deepest_failed_span_id : Option SpanId
  pub deepest_failing_dependency_id : Option SpanId
  pub failure_path : List SpanId
  pub blocked_spans : List BlockedSpanView
  pub retry_groups : List RetryGroupView

abbrev pub id_in : Option SpanRecord → Option SpanId
id_in none = none
id_in (some span) = some span.span_id

abbrev pub some_failed : List SpanRecord → Bool
some_failed [] = false
some_failed (span ∷ spans) = true

-- What is asked of the deepest failure, if there is one.
abbrev pub about : {A : Type 0} → A → (SpanId → Option A) → Option SpanId → Option A
about otherwise ask_of none = some otherwise
about otherwise ask_of (some span_id) = ask_of span_id

abbrev pub with_all :
    {A B C D : Type 0} → (A → B → C → D) → Option A → Option B → Option C → Option D
with_all f (some a) (some b) (some c) = some (f a b c)
with_all f _ _ _ = none

-- The view of a run with these spans and edges. No answer stands for a walk that does not end.
unfoldable pub forensics_of :
    RunId → List SpanRecord → List SpanEdgeRecord → RunTreeNodes → Option FailureForensicsView
forensics_of run_id spans edges tree =
    let failed = keep (λ span. span.status == SpanStatus.failed) spans in
    let span_map = span_map_from [] spans in
    let deepest = find_deepest_failure tree in
    with_all
      (λ dependency path groups. record {
        run_id = run_id;
        has_failure = some_failed failed;
        first_failed_span_id = id_in (first_started failed);
        deepest_failed_span_id = deepest;
        deepest_failing_dependency_id = dependency;
        failure_path = path;
        blocked_spans = blocked_views spans;
        retry_groups = groups;
      })
      (about none (find_deepest_failing_dep span_map edges) deepest)
      (about [] (build_path_to_root span_map edges) deepest) (build_retry_groups spans edges)
