-- ===== src/Api/Tree.antt =====
-- `run_tree` and `run_timeline` of crates/api/src/lib.rs: the spans of a run under their parents.
pub mod Whole
use replay_kit.Common.{
  ℕ, zero, suc, ◌+◌, Bool, true, false, Option, none, some, List, [], ◌∷◌, length, map,
}
use replay_kit.Common.Eq.{Ord, string_eq, string_ord, string_lt, option_eq}
use replay_kit.Common.Map.{Map, get, insert}
use replay_kit.Common.Sort.{sort_by_key}
use replay_kit.Common.Table.{push, or_empty}
use replay_kit.Model.Records.{RunId, SpanId, SpanRecord}
use replay_kit.Storage.Records.{list_spans}
use replay_kit.Storage.State.{MemoryState}

mutual
  pub data RunTreeNode : Type 0 where
    node : SpanRecord → RunTreeNodes → RunTreeNode

  pub data RunTreeNodes : Type 0 where
    nil : RunTreeNodes
    cons : RunTreeNode → RunTreeNodes → RunTreeNodes

-- The order of `Option`: `None` comes first.
abbrev pub option_lt : Option SpanId → Option SpanId → Bool
option_lt none (some b) = true
option_lt (some a) (some b) = string_lt a b
option_lt _ none = false

instance abbrev pub option_ord : Ord (Option SpanId)
option_ord = record { lt = option_lt }

abbrev pub ByParent : Type 0
ByParent = Map (Option SpanId) (List SpanRecord)

unfoldable pub group_from : ByParent → List SpanRecord → ByParent
group_from acc [] = acc
group_from acc (span ∷ spans) = group_from (push span.parent_span_id span acc) spans

abbrev pub in_order : List SpanRecord → List SpanRecord
in_order = sort_by_key (λ span. span.sequence_no)

unfoldable pub sort_groups : ByParent → ByParent
sort_groups [] = []
sort_groups ((parent, siblings) ∷ rest) = (parent, in_order siblings) ∷ sort_groups rest

-- The nodes of some siblings, with the subtrees below them.
unfoldable pub nodes_of : (SpanId → Option RunTreeNodes) → List SpanRecord → Option RunTreeNodes
nodes_of below [] = some nil
nodes_of below (span ∷ spans) = elim (below span.span_id) [
  | none ↦ none
  | some children ↦ elim (nodes_of below spans) [
    | none ↦ none
    | some rest ↦ some (cons (node span children) rest)
  ]
]

-- The recursion, with a bound on its depth: `none` when it is passed.
unfoldable pub build_tree : ℕ → Option SpanId → ByParent → Option RunTreeNodes
build_tree zero parent by_parent = none
build_tree (suc fuel) parent by_parent =
    nodes_of (λ span_id. build_tree fuel (some span_id) by_parent) (or_empty (get parent by_parent))

unfoldable pub tree_of : List SpanRecord → Option RunTreeNodes
tree_of spans = build_tree (suc (length spans)) none (sort_groups (group_from [] spans))

unfoldable pub run_tree : RunId → MemoryState → Option RunTreeNodes
run_tree run_id s = tree_of (list_spans run_id s)

-- `timeline_depth`, with the depths that are known already.
unfoldable pub parents_from :
    Map SpanId (Option SpanId) → List SpanRecord → Map SpanId (Option SpanId)
parents_from acc [] = acc
parents_from acc (span ∷ spans) = parents_from (insert span.span_id span.parent_span_id acc) spans

abbrev pub parent_of : Option (Option SpanId) → Option SpanId
parent_of none = none
parent_of (some parent) = parent

abbrev pub keep_depth : SpanId → ℕ × Map SpanId ℕ → ℕ × Map SpanId ℕ
keep_depth span_id (depth, memo) = (depth, insert span_id depth memo)

abbrev pub below_parent : ℕ × Map SpanId ℕ → ℕ × Map SpanId ℕ
below_parent (depth, memo) = (depth + 1, memo)

abbrev pub kept : SpanId → Option (ℕ × Map SpanId ℕ) → Option (ℕ × Map SpanId ℕ)
kept span_id none = none
kept span_id (some found) = some (keep_depth span_id (below_parent found))

-- `none` stands for a walk over the parents that does not end.
module _ (parents : Map SpanId (Option SpanId)) where
  abbrev pub depth_below :
      SpanId
      → Map SpanId ℕ
      → (SpanId → Option (ℕ × Map SpanId ℕ))
      → Option SpanId
      → Option (ℕ × Map SpanId ℕ)
  depth_below span_id memo walk none = some (keep_depth span_id (0, memo))
  depth_below span_id memo walk (some parent) = kept span_id (walk parent)

  abbrev pub depth_from :
      SpanId
      → Map SpanId ℕ
      → (SpanId → Option (ℕ × Map SpanId ℕ))
      → Option ℕ
      → Option (ℕ × Map SpanId ℕ)
  depth_from span_id memo walk (some depth) = some (depth, memo)
  depth_from span_id memo walk none =
      depth_below span_id memo walk (parent_of (get span_id parents))

  unfoldable pub timeline_depth : ℕ → SpanId → Map SpanId ℕ → Option (ℕ × Map SpanId ℕ)
  timeline_depth zero span_id memo = depth_from span_id memo (λ parent. none) (get span_id memo)
  timeline_depth (suc fuel) span_id memo =
      depth_from span_id memo (λ parent. timeline_depth fuel parent memo) (get span_id memo)

  abbrev pub with_depth :
      SpanId
      → Option (ℕ × Map SpanId ℕ)
      → (Map SpanId ℕ → Option (Map SpanId ℕ))
      → Option (Map SpanId ℕ)
  with_depth span_id none rest = none
  with_depth span_id (some (depth, memo)) rest = rest (insert span_id depth memo)

  unfoldable pub depths_from : ℕ → List SpanRecord → Map SpanId ℕ → Option (Map SpanId ℕ)
  depths_from fuel [] memo = some memo
  depths_from fuel (span ∷ spans) memo =
      with_depth span.span_id (timeline_depth fuel span.span_id memo) (depths_from fuel spans)

abbrev pub depth_or_zero : Option ℕ → ℕ
depth_or_zero none = 0
depth_or_zero (some depth) = depth

abbrev pub with_depths : List SpanRecord → Map SpanId ℕ → List (SpanRecord × ℕ)
with_depths spans depths = map (λ span. (span, depth_or_zero (get span.span_id depths))) spans

unfoldable pub timeline_of : List SpanRecord → Option (List (SpanRecord × ℕ))
timeline_of spans = elim (depths_from (parents_from [] spans) (length spans) spans []) [
  | none ↦ none
  | some depths ↦ some (with_depths spans depths)
]

unfoldable pub run_timeline : RunId → MemoryState → Option (List (SpanRecord × ℕ))
run_timeline run_id s = timeline_of (sort_by_key (λ span. span.started_at) (list_spans run_id s))
