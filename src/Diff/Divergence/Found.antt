-- ===== src/Diff/Divergence/Found.antt =====
-- What a comparison reports, by the spans of the two runs.
use replay_kit.Common.{
  ◌≤◌, Bool, true, false, List, [], ◌∷◌, keep, map, length, ◌≡◌, refl, In, inl, inr, ◌↔◌, keep-In,
  arith,
}
use replay_kit.Common.Eq.{string_eq}
use replay_kit.Common.Map.{get}
use replay_kit.Common.Tests.{Bool-cases, Option-cases}
use replay_kit.Diff.Compare.{no_divergence, or, spans_differ}
use replay_kit.Diff.Divergence.{
  first, differs, works, groups, diff_of, first_divergent-loop, first_container-loop, count-loop,
  diffs-loop,
}
use replay_kit.Diff.Divergence.Ids.{by_id-In, ordered_span_ids-In}
use replay_kit.Diff.Runs.{by_id, ordered_span_ids, compare_all, divergence_of}
use replay_kit.Model.Records.{SpanId, SpanRecord}

length-In : (x : SpanId) (xs : List SpanId) → In x xs → 1 ≤ length xs
length-In x [] m = absurd m
length-In x (y ∷ xs) m = omega arith

keep-empty :
    (p : SpanId → Bool) (xs : List SpanId)
    → length (keep p xs) ≡ 0
    → (x : SpanId) → In x xs
    → p x ≡ false
keep-empty p xs h x m = elim (Bool-cases (p x)) [
  | inl t ↦ ground (arith, length-In x (keep p xs) (keep-In p x xs m t))
  | inr f ↦ f
]

keep-none :
    (p : SpanId → Bool) (xs : List SpanId) → ((x : SpanId) → p x ≡ false) → length (keep p xs) ≡ 0
keep-none p [] h = refl
keep-none p (x ∷ xs) h = rw (h x) (keep-none p xs h)

module _ (source target : List SpanRecord) where
  -- The span at which two runs part is the first, among those of the source in their order and then
  -- those that the target alone has, that differs and groups no others; and where there is none, the
  -- first that differs.
  pub divergence_of-first :
      divergence_of (compare_all source target)
      ≡ or
          (first (works (by_id source) (by_id target)) (ordered_span_ids source target))
          (first (groups (by_id source) (by_id target)) (ordered_span_ids source target))
  unfolding divergence_of compare_all
  divergence_of-first = ground (
    arith,
    first_divergent-loop (by_id source) (by_id target) (ordered_span_ids source target)
        no_divergence,
    first_container-loop (by_id source) (by_id target) (ordered_span_ids source target)
        no_divergence,
  )

  pub compare_all-visits :
      ((compare_all source target).span_diffs
        ≡ map
            (diff_of (by_id source) (by_id target))
            (keep (differs (by_id source) (by_id target)) (ordered_span_ids source target)))
      × ((compare_all source target).changed_span_count
          ≡ length (keep (differs (by_id source) (by_id target)) (ordered_span_ids source target)))
  unfolding compare_all
  compare_all-visits = (
    diffs-loop (by_id source) (by_id target) (ordered_span_ids source target) no_divergence,
    omega (
      arith,
      count-loop (by_id source) (by_id target) (ordered_span_ids source target) no_divergence,
    ),
  )

  listed :
      (id : SpanId)
      → differs (by_id source) (by_id target) id ≡ true
      → In id (ordered_span_ids source target)
  unfolding differs spans_differ
  listed id h = elim (Option-cases (get id (by_id source))) [
    | inr (s, found) ↦ (ordered_span_ids-In id source target).1 (inl (by_id-In id source found))
    | inl miss ↦ elim (Option-cases (get id (by_id target))) [
      | inr (t, found) ↦ (ordered_span_ids-In id source target).1 (inr (by_id-In id target found))
      | inl neither ↦ cc (rw (miss, neither) at h)
    ]
  ]

  -- No span is reported as changed exactly if the runs agree on every span id: the span is in neither,
  -- or in both with the same status, fingerprints, snapshot and error.
  pub compare_all-unchanged :
      ((compare_all source target).changed_span_count ≡ 0)
      ↔ ((id : SpanId) → differs (by_id source) (by_id target) id ≡ false)
  compare_all-unchanged = (agree, unchanged)
    where
      visited : List SpanId
      visited = ordered_span_ids source target

      test : SpanId → Bool
      test = differs (by_id source) (by_id target)

      agree : (compare_all source target).changed_span_count ≡ 0 → (id : SpanId) → test id ≡ false
      agree h id = elim (Bool-cases (test id)) [
        | inl t ↦ keep-empty test visited (cc compare_all-visits.1) id (listed id t)
        | inr f ↦ f
      ]

      unchanged :
          ((id : SpanId) → test id ≡ false) → (compare_all source target).changed_span_count ≡ 0
      unchanged h = cc (compare_all-visits.1, keep-none test visited h)
