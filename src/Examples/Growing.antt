-- ===== src/Examples/Growing.antt =====
-- The tree of a run of three spans.
use mathlib.Core.Path.{subst}
use replay_kit.Common.{
  ℕ, ◌<◌, none, some, [], ◌∷◌, ◌≡◌, refl, sym, ap, ◌∙◌, In, inl, inr, ◌↔◌, arith, if◌then◌else◌,
}
use replay_kit.Common.Eq.{◌==◌, string_eq}
use replay_kit.Common.Map.{get}
use replay_kit.Common.Sort.{sort_by_key}
use replay_kit.Api.Tree.{RunTreeNodes, run_tree}
use replay_kit.Api.Tree.Whole.{Shows, Below, run_tree-Below}
use replay_kit.Examples.Fixtures.{root_span, failed_span, open_span, some_spans}
use replay_kit.Model.Records.{SpanId, SpanRecord}
use replay_kit.Storage.Records.{list_spans}
use replay_kit.Storage.State.{MemoryState, empty_state}

abbrev three : MemoryState
three = record empty_state {
  spans = ("run", ("a", root_span) ∷ ("b", failed_span) ∷ ("c", open_span) ∷ []) ∷ [];
}

three-list_spans : list_spans "run" three ≡ some_spans
unfolding list_spans sort_by_key get
three-list_spans = refl

abbrev height : SpanId → ℕ
height span_id = if span_id == "a" then 1 else 0

above_leaf : (parent : SpanId) → some "a" ≡ some parent → 0 < height parent
above_leaf parent e = let same : "a" ≡ parent = cc in subst (λ p. 0 < height p) same (omega arith)

falls :
    (span : SpanRecord) (parent : SpanId)
    → In span some_spans
    → span.parent_span_id ≡ some parent
    → height span.span_id < height parent
falls span parent (inl e) p = cc (p, e)
falls span parent (inr (inl e)) p =
    rw (ap (λ s. s.span_id) e) (above_leaf parent (sym (ap (λ s. s.parent_span_id) e) ∙ p))
falls span parent (inr (inr (inl e))) p =
    rw (ap (λ s. s.span_id) e) (above_leaf parent (sym (ap (λ s. s.parent_span_id) e) ∙ p))
falls span parent (inr (inr (inr n))) p = absurd n

low : (span : SpanRecord) → In span some_spans → height span.span_id < 3
low span (inl e) = rw (ap (λ s. s.span_id) e) (omega arith)
low span (inr (inl e)) = rw (ap (λ s. s.span_id) e) (omega arith)
low span (inr (inr (inl e))) = rw (ap (λ s. s.span_id) e) (omega arith)
low span (inr (inr (inr n))) = absurd n

run_tree-Below_example :
    (t : RunTreeNodes) × (run_tree "run" three ≡ some t)
    × ((span : SpanRecord) → Shows span t ↔ Below (list_spans "run" three) none span)
run_tree-Below_example =
    run_tree-Below "run" three height
      (λ span parent m p. falls span parent (rw three-list_spans at m) p)
      (λ span m. rw three-list_spans (low span (rw three-list_spans at m)))
