-- ===== src/Api/Tree/Whole.antt =====
-- The tree of a run shows each span that is below a root, and no other.
use replay_kit.Common.{
  ℕ, zero, suc, ◌<◌, Option, none, some, List, [], ◌∷◌, length, ◌≡◌, refl, In, inl, inr, ◌⊎◌, ◌↔◌,
  sym, ◌∙◌, ap, arith, Bool-cases,
}
use mathlib.Core.Path.{subst}
use replay_kit.Common.Eq.{string_eq, option_eq, option_beq}
use replay_kit.Common.Map.{get, get-nil}
use replay_kit.Common.Sort.{In-sort, sort-In, sort_by_key}
use replay_kit.Common.Table.{push, or_empty, push_cases, push_keeps, push_new}
use replay_kit.Model.Records.{RunId, SpanId, SpanRecord}
use replay_kit.Storage.Records.{list_spans}
use replay_kit.Storage.State.{MemoryState}
use replay_kit.Api.Tree.{
  node, RunTreeNodes, nil, cons, option_ord, ByParent, group_from, in_order, sort_groups, nodes_of,
  build_tree, tree_of, run_tree,
}

-- The span stands somewhere in the trees.
abbrev pub Shows : SpanRecord → RunTreeNodes → Type 0
Shows span nil = ⊥
Shows span (cons (node s children) rest) = (span ≡ s) ⊎ Shows span children ⊎ Shows span rest

-- The span is below a parent, or below the roots: a child of it, or below a child.
pub data Below (spans : List SpanRecord) : Option SpanId → SpanRecord → Type 0 where
  child : (c : SpanRecord) → In c spans → Below spans c.parent_span_id c
  deeper :
      (c span : SpanRecord)
      → In c spans
      → Below spans (some c.span_id) span
      → Below spans c.parent_span_id span

grouped :
    (parent : Option SpanId) (c : SpanRecord) (acc : ByParent) (spans : List SpanRecord)
    → In c (or_empty (get parent (group_from acc spans)))
    → In c (or_empty (get parent acc)) ⊎ (In c spans × (c.parent_span_id ≡ parent))
unfolding group_from
grouped parent c acc [] h = inl h
grouped parent c acc (span ∷ spans) h =
    elim (grouped parent c (push span.parent_span_id span acc) spans h) [
      | inr (m, p) ↦ inr (inr m, p)
      | inl m ↦ elim (push_cases span.parent_span_id parent span acc c m) [
        | inl (p, s) ↦ inr (inl s, ap (λ x. x.parent_span_id) s ∙ sym p)
        | inr old ↦ inl old
      ]
    ]

groups_keep :
    (parent : Option SpanId) (c : SpanRecord) (acc : ByParent) (spans : List SpanRecord)
    → In c (or_empty (get parent acc))
    → In c (or_empty (get parent (group_from acc spans)))
unfolding group_from
groups_keep parent c acc [] h = h
groups_keep parent c acc (span ∷ spans) h =
    groups_keep parent c (push span.parent_span_id span acc) spans
      (push_keeps span.parent_span_id parent span acc c h)

in_group :
    (c : SpanRecord) (acc : ByParent) (spans : List SpanRecord)
    → In c spans
    → In c (or_empty (get c.parent_span_id (group_from acc spans)))
unfolding group_from
in_group c acc [] m = absurd m
in_group c acc (span ∷ spans) (inl s) =
    groups_keep c.parent_span_id c (push span.parent_span_id span acc) spans
      (rw s (push_new span.parent_span_id span acc))
in_group c acc (span ∷ spans) (inr m) = in_group c (push span.parent_span_id span acc) spans m

get-sort_groups :
    (parent : Option SpanId) (groups : ByParent)
    → or_empty (get parent (sort_groups groups)) ≡ in_order (or_empty (get parent groups))
unfolding sort_groups get sort_by_key
get-sort_groups parent [] = refl
get-sort_groups parent ((p, siblings) ∷ rest) = elim (Bool-cases (option_beq p parent)) [
  | inl t ↦ rw t refl
  | inr f ↦ rw f (get-sort_groups parent rest)
]

module _ (spans : List SpanRecord) where
  abbrev children : Option SpanId → List SpanRecord
  children parent = or_empty (get parent (sort_groups (group_from [] spans)))

  In-children :
      (parent : Option SpanId) (c : SpanRecord)
      → In c (children parent)
      → In c spans × (c.parent_span_id ≡ parent)
  In-children parent c h =
      elim (grouped parent c [] spans (In-sort _ c _ (rw get-sort_groups at h))) [
        | inl m ↦ absurd (rw get-nil at m)
        | inr found ↦ found
      ]

  children-In :
      (parent : Option SpanId) (c : SpanRecord)
      → In c spans
      → c.parent_span_id ≡ parent
      → In c (children parent)
  children-In parent c m p = rw get-sort_groups (sort-In _ c _ (rw (← p) (in_group c [] spans m)))

  -- The first step down to a span below a parent.
  abbrev FirstStep : Option SpanId → SpanRecord → Type 0
  FirstStep parent span =
      (c : SpanRecord) × In c spans
      × (c.parent_span_id ≡ parent)
      × ((span ≡ c) ⊎ Below spans (some c.span_id) span)

  Below-cases :
      (parent : Option SpanId) (span : SpanRecord) → Below spans parent span → FirstStep parent span
  Below-cases _ _ (child c m) = (c, m, refl, inl refl)
  Below-cases _ _ (deeper c span m b) = (c, m, refl, inr b)

  Below-of_cases :
      (parent : Option SpanId) (span : SpanRecord) → FirstStep parent span → Below spans parent span
  Below-of_cases parent span (c, m, p, inl e) = rw e (subst (λ q. Below spans q c) p (child c m))
  Below-of_cases parent span (c, m, p, inr b) =
      subst (λ q. Below spans q span) p (deeper c span m b)

  -- Trees that show what is below a parent, as they are built.
  abbrev Grown : Option RunTreeNodes → Option SpanId → Type 0
  Grown built parent =
      (t : RunTreeNodes) × (built ≡ some t)
      × ((span : SpanRecord) → Shows span t ↔ Below spans parent span)

  abbrev Among : List SpanRecord → SpanRecord → Type 0
  Among siblings span =
      (c : SpanRecord) × In c siblings × ((span ≡ c) ⊎ Below spans (some c.span_id) span)

  grow_all :
      (below : SpanId → Option RunTreeNodes) (siblings : List SpanRecord)
      → ((c : SpanRecord) → In c siblings → Grown (below c.span_id) (some c.span_id))
      → (t : RunTreeNodes) × (nodes_of below siblings ≡ some t)
        × ((span : SpanRecord) → Shows span t ↔ Among siblings span)
  unfolding nodes_of
  grow_all below [] each = (nil, refl, λ span. (λ h. absurd h, λ (c, m, h). absurd m))
  grow_all below (c ∷ siblings) each =
      let (kids, e, k) = each c (inl refl) in
      let (rest, f, r) = grow_all below siblings (λ d m. each d (inr m)) in
      (
        cons (node c kids) rest,
        rw (nodes_of, e, f) refl,
        λ span. (
          λ h. elim h [
            | inl s ↦ (c, inl refl, inl s)
            | inr (inl below_c) ↦ (c, inl refl, inr ((k span).0 below_c))
            | inr (inr later) ↦ let (d, m, w) = (r span).0 later in (d, inr m, w)
          ],
          λ (d, m, w). elim m [
            | inl q ↦ elim (subst (λ x. (span ≡ x) ⊎ Below spans (some x.span_id) span) q w) [
              | inl s ↦ inl s
              | inr b ↦ inr (inl ((k span).1 b))
            ]
            | inr n ↦ inr (inr ((r span).1 (d, n, w)))
          ],
        ),
      )

  grow :
      (parent : Option SpanId) (below : SpanId → Option RunTreeNodes)
      → ((c : SpanRecord)
          → In c spans
          → c.parent_span_id ≡ parent
          → Grown (below c.span_id) (some c.span_id))
      → Grown (nodes_of below (children parent)) parent
  grow parent below each =
      let (t, e, shown) =
        grow_all below (children parent)
          (λ c m. let (n, p) = In-children parent c m in each c n p) in
      (
        t,
        e,
        λ span. (
          λ h.
              let (c, m, w) = (shown span).0 h in
              let (n, p) = In-children parent c m in Below-of_cases parent span (c, n, p, w),
          λ b.
              let (c, n, p, w) = Below-cases parent span b in
              (shown span).1 (c, children-In parent c n p, w),
        ),
      )

  module _ (height : SpanId → ℕ)
      (falls : (span : SpanRecord) (parent : SpanId)
        → In span spans
        → span.parent_span_id ≡ some parent
        → height span.span_id < height parent) where
    build_tree-Grown :
        (fuel : ℕ) (parent : Option SpanId)
        → ((c : SpanRecord) → In c spans → c.parent_span_id ≡ parent → height c.span_id < fuel)
        → Grown (build_tree (suc fuel) parent (sort_groups (group_from [] spans))) parent
    unfolding build_tree
    build_tree-Grown zero parent low = grow parent _ (λ c m p. absurd (omega (arith, low c m p)))
    build_tree-Grown (suc fuel) parent low = grow parent _ (λ c m p.
        build_tree-Grown fuel (some c.span_id)
          (λ d n q. omega (arith, falls d c.span_id n q, low c m p)))

    tree_of-Below :
        ((span : SpanRecord) → In span spans → height span.span_id < length spans)
        → Grown (tree_of spans) none
    unfolding tree_of
    tree_of-Below low = build_tree-Grown (length spans) none (λ c m p. low c m)

-- If each span of a run has a height below the number of the spans and below that of its parent,
-- then the tree of the run is built, and it shows exactly the spans that are below a root: those
-- without a parent, and those whose parent it shows.
pub run_tree-Below :
    (run_id : RunId) (s : MemoryState) (height : SpanId → ℕ)
    → ((span : SpanRecord) (parent : SpanId)
        → In span (list_spans run_id s)
        → span.parent_span_id ≡ some parent
        → height span.span_id < height parent)
    → ((span : SpanRecord)
        → In span (list_spans run_id s)
        → height span.span_id < length (list_spans run_id s))
    → (t : RunTreeNodes) × (run_tree run_id s ≡ some t)
      × ((span : SpanRecord) → Shows span t ↔ Below (list_spans run_id s) none span)
unfolding run_tree
run_tree-Below run_id s height falls low = tree_of-Below (list_spans run_id s) height falls low
