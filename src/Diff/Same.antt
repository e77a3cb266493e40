-- ===== src/Diff/Same.antt =====
-- The comparison of a run with itself.
use replay_kit.Common.{ℕ, String, false, Option, none, some, List, [], ◌∷◌, keep, ◌≡◌, refl, arith}
use replay_kit.Common.Eq.{Eq, ◌!=◌, string_eq, string_ord, option_eq}
use replay_kit.Common.Map.{get}
use replay_kit.Diff.Artifacts.{count_changed_artifacts, digests, all_ids, changed}
use replay_kit.Diff.Compare.{
  records_differ, spans_differ, compare_span, compare_spans, Divergence, no_divergence,
}
use replay_kit.Diff.Runs.{Side, diff_record, compare_all, divergence_of, by_id, ordered_span_ids}
use replay_kit.Model.Enums.{span_status_eq}
use replay_kit.Model.Records.{RunId, SpanId, SpanRecord, ArtifactRecord, ArtifactId}

same : {A : Type 0} ⦃e : Eq A⦄ → (x : A) → (x != x) ≡ false
same ⦃e = e⦄ x = ground (arith, e.equal_iff x x)

spans_differ-same : (span : Option SpanRecord) → spans_differ span span ≡ false
unfolding spans_differ records_differ
spans_differ-same none = refl
spans_differ-same (some span) =
    rw
      (
        same span.status,
        same span.output_fingerprint,
        same span.input_fingerprint,
        same span.snapshot_id,
        same span.error_summary,
      )
      refl

compare_spans-same :
    (spans : List SpanRecord) (ids : List SpanId) (d : Divergence)
    → compare_spans (by_id spans) (by_id spans) ids d ≡ d
unfolding compare_spans compare_span
compare_spans-same spans [] d = refl
compare_spans-same spans (id ∷ ids) d =
    rw (spans_differ-same (get id (by_id spans))) (compare_spans-same spans ids d)

compare_all-same : (spans : List SpanRecord) → compare_all spans spans ≡ no_divergence
unfolding compare_all
compare_all-same spans = compare_spans-same spans (ordered_span_ids spans spans) no_divergence

keep-changed-same :
    (artifacts : List ArtifactRecord) (ids : List ArtifactId)
    → keep (changed (digests artifacts) (digests artifacts)) ids ≡ []
keep-changed-same artifacts [] = refl
keep-changed-same artifacts (id ∷ ids) =
    rw (same (get id (digests artifacts))) (keep-changed-same artifacts ids)

count_changed_artifacts-same :
    (artifacts : List ArtifactRecord) → count_changed_artifacts artifacts artifacts ≡ 0
unfolding count_changed_artifacts
count_changed_artifacts-same artifacts =
    rw (keep-changed-same artifacts (all_ids (digests artifacts) (digests artifacts))) refl

-- The comparison of a run with itself reports no changed span, no changed artifact and no span at
-- which the runs part.
pub diff_record-same :
    (run_id : RunId) (side : Side) (at : ℕ) (id : String)
    → ((diff_record run_id run_id side side at id).changed_span_count ≡ 0)
      × ((diff_record run_id run_id side side at id).changed_artifact_count ≡ 0)
      × ((diff_record run_id run_id side side at id).first_divergent_span_id ≡ none)
unfolding diff_record divergence_of
diff_record-same run_id side at id = (
  rw (compare_all-same side.spans) refl,
  count_changed_artifacts-same side.artifacts,
  rw (compare_all-same side.spans) refl,
)
