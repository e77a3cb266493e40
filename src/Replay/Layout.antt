-- ===== src/Replay/Layout.antt =====
-- The first part of `plan_state` of crates/replay-engine/src/lib.rs: what a request is found to be about,
-- before any span is asked for whether it can run.
use replay_kit.Common.{ℕ, String, Bool, true, false, Option, none, some, List, [], ◌∷◌}
use replay_kit.Common.Eq.{◌==◌, string_eq, string_ord, option_eq}
use replay_kit.Common.Map.{Map, get, insert, values}
use replay_kit.Common.Result.{Result, ok, guard, ok_or, map_err, ◌>>=◌, ◌>>◌}
use replay_kit.Common.Sort.{sort_by_key}
use replay_kit.Common.Table.{push}
use replay_kit.Common.Tests.{if◌then◌else◌}
use replay_kit.Model.Enums.{EdgeKind, edge_kind_eq}
use replay_kit.Model.Records.{SpanId, SpanRecord, SpanEdgeRecord, DirtySpanRecord, BranchRequest}
use replay_kit.Model.Summary.{u64_max}
use replay_kit.Replay.BasePoint.{base_point_index}
use replay_kit.Replay.Dirty.{compute_dirty_map}
use replay_kit.Replay.Effective.{first_of}
use replay_kit.Replay.Engine.{ReplayError, storage, invalid_patch, endless, Machine}
use replay_kit.Replay.Inputs.{PatchInputs, patch_inputs}
use replay_kit.Replay.Rules.{
  is_container, PatchDisposition, patch_disposition, validate_patch_target, no_spans, no_fork_span,
  invalid_replacement,
}
use replay_kit.Replay.Timeline.{workspace_root_of}
use replay_kit.Storage.Records.{list_spans}
use replay_kit.Storage.State.{MemoryState, edges_of, get_run}
use replay_kit.Workspace.Points.{WorkspacePoint, list_workspace_points}

-- What a plan is about.
pub record Layout : Type 0 where
  pub spans : List SpanRecord
  pub span_map : Map SpanId SpanRecord
  pub fork_span : SpanRecord
  pub disposition : PatchDisposition
  pub patch : PatchInputs
  pub dirty : Map SpanId DirtySpanRecord
  pub dirty_spans : List DirtySpanRecord
  pub upstream : Map SpanId (List SpanId)
  pub points : List WorkspacePoint
  pub recorded_root : Option String
  pub first_dirty : Option SpanRecord
  pub base_point : Option ℕ

unfoldable pub span_map_from : Map SpanId SpanRecord → List SpanRecord → Map SpanId SpanRecord
span_map_from acc [] = acc
span_map_from acc (span ∷ spans) = span_map_from (insert span.span_id span acc) spans

-- A span that the map has, where there is an id.
abbrev pub span_in : Map SpanId SpanRecord → Option SpanId → Option SpanRecord
span_in span_map none = none
span_in span_map (some span_id) = get span_id span_map

abbrev pub parent_in : Option SpanRecord → Option SpanId
parent_in none = none
parent_in (some span) = span.parent_span_id

-- The spans that a span must wait for: those its data depends on, and a parent that is no container.
unfoldable pub wait_for_edges :
    Map SpanId (List SpanId) → List SpanEdgeRecord → Map SpanId (List SpanId)
wait_for_edges upstream [] = upstream
wait_for_edges upstream (edge ∷ edges) =
    wait_for_edges
      (if edge.kind == EdgeKind.data_depends_on
        then push edge.from_span_id edge.to_span_id upstream
        else upstream)
      edges

unfoldable pub wait_for_parent :
    SpanRecord → Option SpanRecord → Map SpanId (List SpanId) → Map SpanId (List SpanId)
wait_for_parent span none upstream = upstream
wait_for_parent span (some parent) upstream =
    if is_container parent.kind then upstream else push span.span_id parent.span_id upstream

unfoldable pub wait_for_parents :
    Map SpanId SpanRecord → List SpanRecord → Map SpanId (List SpanId) → Map SpanId (List SpanId)
wait_for_parents span_map [] upstream = upstream
wait_for_parents span_map (span ∷ spans) upstream =
    wait_for_parents span_map spans
      (wait_for_parent span (span_in span_map span.parent_span_id) upstream)

unfoldable pub upstream_of :
    Map SpanId SpanRecord → List SpanRecord → List SpanEdgeRecord → Map SpanId (List SpanId)
upstream_of span_map spans edges = wait_for_parents span_map spans (wait_for_edges [] edges)

abbrev pub sequence_or_max : Option SpanRecord → ℕ
sequence_or_max none = u64_max
sequence_or_max (some span) = span.sequence_no

unfoldable pub in_sequence :
    Map SpanId SpanRecord → Map SpanId DirtySpanRecord → List DirtySpanRecord
in_sequence span_map dirty =
    sort_by_key (λ entry. sequence_or_max (get entry.span_id span_map)) (values dirty)

-- `sandbox_root_label`, and the root that the run was recorded at.
abbrev pub not_blank : Option String → Option String
not_blank none = none
not_blank (some root) = if root == "" then none else some root

unfoldable pub sandbox_root_label : Option WorkspacePoint → Option String
sandbox_root_label none = none
sandbox_root_label (some point) = not_blank (workspace_root_of point)

abbrev pub root_or : Option String → Option String → Option String
root_or (some root) other = some root
root_or none other = other

abbrev pub first_span : Map SpanId SpanRecord → Option DirtySpanRecord → Option SpanRecord
first_span span_map none = none
first_span span_map (some entry) = get entry.span_id span_map

abbrev pub base_for : Map SpanId SpanRecord → List WorkspacePoint → Option SpanRecord → Option ℕ
base_for span_map points none = none
base_for span_map points (some first) = base_point_index span_map points first

abbrev pub has_spans : List SpanRecord → Bool
has_spans [] = false
has_spans (span ∷ spans) = true

module _ {W : Type 0} (machine : Machine W) where
  unfoldable pub layout_of : BranchRequest → MemoryState → Result ReplayError Layout
  layout_of request s = do
    let source = request.source_run_id
    let spans = sort_by_key (λ span. span.sequence_no) (list_spans source s)
    guard (has_spans spans) (invalid_patch (no_spans source))
    let span_map = span_map_from [] spans
    fork_span ←
        ok_or (get request.fork_span_id span_map)
          (invalid_patch (no_fork_span request.fork_span_id source))
    map_err invalid_patch (validate_patch_target fork_span request)
    let manifest = request.patch_manifest
    patch ←
        map_err (λ e. invalid_patch (invalid_replacement manifest.patch_type e))
          (patch_inputs machine.parse_json manifest.patch_type manifest.replacement fork_span)
    let edges = edges_of s source
    dirty ← ok_or (compute_dirty_map request.fork_span_id spans edges) endless
    let dirty_spans = in_sequence span_map dirty
    let points = list_workspace_points source s
    run ← map_err storage (get_run source s)
    let first_dirty = first_span span_map (first_of dirty_spans)
    ok (record {
      spans = spans;
      span_map = span_map;
      fork_span = fork_span;
      disposition = patch_disposition manifest.patch_type fork_span.kind;
      patch = patch;
      dirty = dirty;
      dirty_spans = dirty_spans;
      upstream = upstream_of span_map spans edges;
      points = points;
      recorded_root = root_or run.workspace_root (sandbox_root_label (first_of points));
      first_dirty = first_dirty;
      base_point = base_for span_map points first_dirty;
    })
