-- ===== src/Diff/Divergence.antt =====
-- What the loop of `diff_runs` finds, against searches of the list of span ids.
pub mod Ids
pub mod Found
pub mod Reported
use replay_kit.Common.{
  ℕ, suc, ◌+◌, String, Bool, true, false, ◌&&◌, Option, none, some, List, [], ◌∷◌, ◌++◌, map, keep,
  member, length, length-append, push_back, ◌≡◌, refl, sym, ap, In, ◌⊎◌, inl, inr, ◌↔◌, In-append,
  In-append_left, In-append_right, In-keep, keep-In, In-of_member, member_of_In, arith,
}
use replay_kit.Common.Eq.{string_eq, negate}
use replay_kit.Common.Map.{Map, get, insert, get-insert, get-nil}
use replay_kit.Common.Tests.{if◌then◌else◌, Bool-cases, Option-cases}
use replay_kit.Diff.Compare.{
  SpanDiff, Divergence, no_divergence, compare_span, compare_spans, spans_differ, is_container_span,
  note_difference, build_span_diff, or,
}
use replay_kit.Diff.Runs.{span_ids, spans_from, by_id, ordered_span_ids, compare_all, divergence_of}
use replay_kit.Model.Records.{SpanId, SpanRecord}

-- The first element of a list that passes a test.
unfoldable pub first : {A : Type 0} → (A → Bool) → List A → Option A
first p [] = none
first p (x ∷ xs) = if p x then some x else first p xs

module _ (source target : Map SpanId SpanRecord) where
  unfoldable pub differs : SpanId → Bool
  differs id = spans_differ (get id source) (get id target)

  unfoldable pub contains_others : SpanId → Bool
  contains_others id = is_container_span (or (get id source) (get id target))

  unfoldable pub works : SpanId → Bool
  works id = differs id && negate (contains_others id)

  unfoldable pub groups : SpanId → Bool
  groups id = differs id && contains_others id

  unfoldable pub diff_of : SpanId → SpanDiff
  diff_of id = build_span_diff id (get id source) (get id target)

  -- The loop's variables from any start.
  pub first_divergent-loop :
      (ids : List SpanId) (d : Divergence)
      → (compare_spans source target ids d).first_divergent ≡ or d.first_divergent (first works ids)
  unfolding compare_spans compare_span note_difference differs contains_others diff_of works groups
      first
  first_divergent-loop [] d = ground arith
  first_divergent-loop (id ∷ ids) d =
      ground (arith, first_divergent-loop ids (compare_span source target id d))

  pub first_container-loop :
      (ids : List SpanId) (d : Divergence)
      → (compare_spans source target ids d).first_container
        ≡ or d.first_container (first groups ids)
  unfolding compare_spans compare_span note_difference differs contains_others diff_of works groups
      first
  first_container-loop [] d = ground arith
  first_container-loop (id ∷ ids) d =
      ground (arith, first_container-loop ids (compare_span source target id d))

  pub count-loop :
      (ids : List SpanId) (d : Divergence)
      → (compare_spans source target ids d).changed_span_count
        ≡ d.changed_span_count + length (keep differs ids)
  unfolding compare_spans compare_span note_difference differs contains_others diff_of works groups
      first
  count-loop [] d = ground arith
  count-loop (id ∷ ids) d = ground (arith, count-loop ids (compare_span source target id d))

  push_back-append :
      {A : Type 0} (xs : List A) (x : A) (ys : List A) → push_back xs x ++ ys ≡ xs ++ x ∷ ys
  push_back-append [] x ys = refl
  push_back-append (y ∷ xs) x ys = ap (λ l. y ∷ l) (push_back-append xs x ys)

  append-nil : {A : Type 0} (xs : List A) → xs ++ [] ≡ xs
  append-nil [] = refl
  append-nil (x ∷ xs) = ap (λ l. x ∷ l) (append-nil xs)

  pub diffs-loop :
      (ids : List SpanId) (d : Divergence)
      → (compare_spans source target ids d).span_diffs
        ≡ d.span_diffs ++ map diff_of (keep differs ids)
  unfolding compare_spans compare_span note_difference differs contains_others diff_of works groups
      first
  diffs-loop [] d = sym (append-nil d.span_diffs)
  diffs-loop (id ∷ ids) d = ground (
    arith,
    diffs-loop ids (compare_span source target id d),
    push_back-append d.span_diffs (diff_of id) (map diff_of (keep differs ids)),
  )
