-- ===== src/Examples/Comparing.antt =====
-- Comparisons of the run with another.
use replay_kit.Common.{
  String, false, none, some, List, [], ◌∷◌, map, keep, length, In, ◌≡◌, refl, ◌↔◌, inl, inr, member,
  ◌++◌,
}
use replay_kit.Common.Eq.{string_eq}
use replay_kit.Common.Map.{get}
use replay_kit.Common.Result.{ok}
use replay_kit.Diff.Cached.{new_diff, diff_runs-cached}
use replay_kit.Diff.Compare.{or}
use replay_kit.Diff.Divergence.{first, differs, works, groups}
use replay_kit.Diff.Divergence.Found.{divergence_of-first, compare_all-unchanged}
use replay_kit.Diff.Divergence.Reported.{IsUnique, Describes, compare_all-differs}
use replay_kit.Diff.Compare.{SpanDiff}
use replay_kit.Common.Eq.{negate, ◌==◌}
use replay_kit.Diff.Runs.{
  Side, by_id, span_ids, ordered_span_ids, compare_all, divergence_of, diff_record, diff_runs,
  get_cached_diff,
}
use replay_kit.Diff.Same.{diff_record-same}
use replay_kit.Common.Sort.{sort_by_key, insert_by_key}
use replay_kit.Common.Text.{is_blank, trim, trim_start, trim_end, is_whitespace}
use replay_kit.Storage.Artifacts.{list_artifacts, validate_all}
use replay_kit.Storage.Validate.{validate_artifact_record, check_path, local_blob_path}
use replay_kit.Examples.Fixtures.{
  shared_store, stored, some_env, some_spans, root_span, failed_span, some_run, other_run,
  artifact_of,
}
use replay_kit.Model.Records.{SpanId, SpanRecord, ArtifactRecord}
use replay_kit.Storage.State.{MemoryState}

abbrev other_spans : List SpanRecord
other_spans = root_span ∷ record failed_span { output_fingerprint = some "f" } ∷ []

divergence_of-first_example :
    divergence_of (compare_all some_spans other_spans)
    ≡ or
        (first
          (works (by_id some_spans) (by_id other_spans))
          (ordered_span_ids some_spans other_spans))
        (first
          (groups (by_id some_spans) (by_id other_spans))
          (ordered_span_ids some_spans other_spans))
divergence_of-first_example = divergence_of-first some_spans other_spans

apart : (x y : String) → x == y ≡ false → x ≡ y → ⊥
apart x y f e = cc (f, (string_eq.equal_iff x y).1 e)

some-IsUnique : IsUnique (span_ids some_spans)
some-IsUnique = (
  λ m. elim m [
    | inl e ↦ apart "a" "b" refl e
    | inr n ↦ elim n [ inl e ↦ apart "a" "c" refl e | inr o ↦ o ]
  ],
  (λ m. elim m [ inl e ↦ apart "b" "c" refl e | inr n ↦ n ], (λ m. m, tt)),
)

other-IsUnique : IsUnique (span_ids other_spans)
other-IsUnique = (λ m. elim m [ inl e ↦ apart "a" "b" refl e | inr n ↦ n ], (λ m. m, tt))

compare_all-differs_example :
    (map (λ d. d.span_id_source) (compare_all some_spans other_spans).span_diffs
      ≡ keep (differs (by_id some_spans) (by_id other_spans)) (
          span_ids some_spans
          ++ keep (λ id. negate (member id (span_ids some_spans))) (span_ids other_spans)))
    × IsUnique (map (λ d. d.span_id_source) (compare_all some_spans other_spans).span_diffs)
    × ((compare_all some_spans other_spans).changed_span_count
        ≡ length (compare_all some_spans other_spans).span_diffs)
    × ((d : SpanDiff)
        → In d (compare_all some_spans other_spans).span_diffs
        → (d.span_id_target ≡ d.span_id_source)
          × Describes
              (get d.span_id_source (by_id some_spans))
              (get d.span_id_source (by_id other_spans))
              d)
compare_all-differs_example =
    compare_all-differs some_spans other_spans some-IsUnique other-IsUnique

compare_all-unchanged_example :
    ((compare_all some_spans other_spans).changed_span_count ≡ 0)
    ↔ ((id : SpanId) → differs (by_id some_spans) (by_id other_spans) id ≡ false)
compare_all-unchanged_example = compare_all-unchanged some_spans other_spans

abbrev some_side : Side
some_side = record { run = some_run; spans = some_spans; artifacts = artifact_of "run" "x" ∷ [] }

diff_record-same_example :
    ((diff_record "run" "run" some_side some_side 30 "diff-1").changed_span_count ≡ 0)
    × ((diff_record "run" "run" some_side some_side 30 "diff-1").changed_artifact_count ≡ 0)
    × ((diff_record "run" "run" some_side some_side 30 "diff-1").first_divergent_span_id ≡ none)
diff_record-same_example = diff_record-same "run" some_side 30 "diff-1"

abbrev store_state : MemoryState
store_state = shared_store.state

abbrev of_run : List ArtifactRecord
of_run = stored (artifact_of "run" "x") ∷ []

abbrev of_fork : List ArtifactRecord
of_fork = stored (artifact_of "fork" "y") ∷ []

run_found : get "run" store_state.runs ≡ some some_run
unfolding get
run_found = refl

fork_found : get "fork" store_state.runs ≡ some other_run
unfolding get
fork_found = refl

run_listed : list_artifacts some_env "run" store_state ≡ ok of_run
unfolding list_artifacts validate_all validate_artifact_record check_path local_blob_path is_blank
    trim trim_start trim_end is_whitespace get sort_by_key insert_by_key
run_listed = refl

fork_listed : list_artifacts some_env "fork" store_state ≡ ok of_fork
unfolding list_artifacts validate_all validate_artifact_record check_path local_blob_path is_blank
    trim trim_start trim_end is_whitespace get sort_by_key insert_by_key
fork_listed = refl

diff_runs-cached_example :
    let diff = new_diff some_env "run" "fork" 30 store_state some_run other_run of_run of_fork in
    (t : MemoryState) × (diff_runs some_env "run" "fork" 30 store_state ≡ (ok diff, t))
    × (get_cached_diff "run" "fork" t ≡ ok diff)
    × (t.runs ≡ store_state.runs)
    × (t.spans ≡ store_state.spans)
    × (t.artifacts ≡ store_state.artifacts)
diff_runs-cached_example =
    diff_runs-cached some_env "run" "fork" 30 store_state some_run other_run of_run of_fork
      run_found fork_found run_listed fork_listed
