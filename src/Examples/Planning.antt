-- ===== src/Examples/Planning.antt =====
-- The plan of a replay of the run, and the rules.
use mathlib.Core.Path.{subst}
use replay_kit.Common.{
  ℕ, ◌<◌, Bool, true, false, Option, none, some, List, [], ◌∷◌, any, ◌≡◌, refl, ◌↔◌, arith,
}
use replay_kit.Common.Eq.{◌==◌, string_eq}
use replay_kit.Common.Map.{Map, get, contains_key}
use replay_kit.Common.Result.{ok, err}
use replay_kit.Common.Tests.{if◌then◌else◌}
use replay_kit.Examples.Fixtures.{some_spans, data_edge}
use replay_kit.Model.Enums.{RunStatus}
use replay_kit.Model.Records.{ArtifactId, SpanId, DirtySpanRecord, SpanEdgeRecord}
use replay_kit.Replay.Ancestry.{is_self_or_descendant, Descends, is_self_or_descendant-Descends}
use replay_kit.Replay.Dirty.{compute_dirty_map}
use replay_kit.Replay.Dirty.Exact.{compute_dirty_map-Reach, compute_dirty_map-triggers}
use replay_kit.Replay.Dirty.Push.{TriggeredIn}
use replay_kit.Replay.Dirty.Spec.{Reach, Affects}
use replay_kit.Replay.Outcome.{
  derive_run_status-blocked, replace_artifact_id-first, replace_artifact_id-missing,
}
use replay_kit.Replay.Rules.{derive_run_status, is_blocked, replace_artifact_id, not_attached}

abbrev some_edges : List SpanEdgeRecord
some_edges = data_edge ∷ []

compute_dirty_map-Reach_example :
    (m : Map SpanId DirtySpanRecord) × (compute_dirty_map "b" some_spans some_edges ≡ some m)
    × ((x : SpanId) → (contains_key x m ≡ true) ↔ Reach some_spans some_edges "b" x)
compute_dirty_map-Reach_example = compute_dirty_map-Reach "b" some_spans some_edges

compute_dirty_map-triggers_example :
    (m : Map SpanId DirtySpanRecord) × (compute_dirty_map "b" some_spans some_edges ≡ some m)
    × ((x t : SpanId)
        → TriggeredIn (get x m) t ↔ ((contains_key t m ≡ true) × Affects some_spans some_edges t x))
compute_dirty_map-triggers_example = compute_dirty_map-triggers "b" some_spans some_edges

derive_run_status-blocked_example :
    (derive_run_status some_spans ≡ RunStatus.blocked) ↔ (any is_blocked some_spans ≡ true)
derive_run_status-blocked_example = derive_run_status-blocked some_spans

replace_artifact_id-first_example :
    replace_artifact_id ("x" ∷ "y" ∷ "z" ∷ "y" ∷ []) "y" "w" ≡ ok ("x" ∷ "w" ∷ "z" ∷ "y" ∷ [])
replace_artifact_id-first_example =
    replace_artifact_id-first ("x" ∷ []) ("z" ∷ "y" ∷ []) "y" "w" refl

replace_artifact_id-missing_example :
    (replace_artifact_id ("x" ∷ []) "y" "w" ≡ err (not_attached "y"))
    ↔ (any {A = ArtifactId} (λ id. id == "y") ("x" ∷ []) ≡ false)
replace_artifact_id-missing_example = replace_artifact_id-missing ("x" ∷ []) "y" "w"

-- "a" is the parent of every other span.
unfoldable parent : SpanId → Option SpanId
parent span_id = if span_id == "a" then none else some "a"

unfoldable depth : SpanId → ℕ
depth span_id = if span_id == "a" then 0 else 1

falls_if :
    (root : Bool) (above : SpanId)
    → (if root then none else some "a") ≡ some above
    → depth above < (if root then 0 else 1)
unfolding depth
falls_if true above h = cc
falls_if false above h =
    let same : "a" ≡ above = ground arith in subst (λ x. depth x < 1) same (omega arith)

falls : (span_id above : SpanId) → parent span_id ≡ some above → depth above < depth span_id
unfolding parent depth
falls span_id above h = falls_if (span_id == "a") above h

is_self_or_descendant-Descends_example :
    (answer : Bool) × (is_self_or_descendant "a" parent 2 "c" ≡ some answer)
    × ((answer ≡ true) ↔ Descends "a" parent "c")
unfolding depth
is_self_or_descendant-Descends_example =
    is_self_or_descendant-Descends "a" parent depth falls 2 "c" (omega arith)
