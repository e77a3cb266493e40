-- ===== src/Diff/Divergence/Ids.antt =====
-- The span ids that the loop of `diff_runs` visits.
use replay_kit.Common.{
  Bool, List, [], ◌∷◌, some, keep, member, ◌≡◌, refl, In, ◌⊎◌, inl, inr, ◌↔◌, In-append,
  In-append_left, In-append_right, In-keep, keep-In, In-of_member, arith,
}
use replay_kit.Common.Eq.{string_eq, string_ord, negate}
use replay_kit.Common.Map.{Map, get, insert, get-insert, get-nil}
use replay_kit.Common.Tests.{Bool-cases}
use replay_kit.Diff.Runs.{span_ids, spans_from, by_id, ordered_span_ids}
use replay_kit.Model.Records.{SpanId, SpanRecord}

-- A span that is found by its id is in the list.
by_id-In_from :
    (id : SpanId) (m : Map SpanId SpanRecord) (spans : List SpanRecord) {span : SpanRecord}
    → get id (spans_from m spans) ≡ some span
    → In id (span_ids spans) ⊎ (get id m ≡ some span)
by_id-In_from id m [] h = inr h
by_id-In_from id m (x ∷ spans) h = elim (by_id-In_from id (insert x.span_id x m) spans h) [
  | inl there ↦ inl (inr there)
  | inr found ↦ ground (arith, get-insert x.span_id id x m, string_eq.equal_iff x.span_id id)
]

pub by_id-In :
    (id : SpanId) (spans : List SpanRecord) {span : SpanRecord}
    → get id (by_id spans) ≡ some span
    → In id (span_ids spans)
by_id-In id spans h = elim (by_id-In_from id [] spans h) [
  | inl there ↦ there
  | inr found ↦ cc (get-nil id)
]

-- The ids that the loop visits are those of either run.
pub ordered_span_ids-In :
    (id : SpanId) (source target : List SpanRecord)
    → In id (ordered_span_ids source target) ↔ (In id (span_ids source) ⊎ In id (span_ids target))
unfolding ordered_span_ids
ordered_span_ids-In id source target = (there, back)
  where
    missing : SpanId → Bool
    missing x = negate (member x (span_ids source))

    there :
        In id (ordered_span_ids source target) → In id (span_ids source) ⊎ In id (span_ids target)
    there h = elim (In-append id (span_ids source) (keep missing (span_ids target)) h) [
      | inl s ↦ inl s
      | inr t ↦ inr (In-keep missing id (span_ids target) t).0
    ]

    from_source : In id (span_ids source) → In id (ordered_span_ids source target)
    from_source s = In-append_left id (span_ids source) (keep missing (span_ids target)) s

    back :
        In id (span_ids source) ⊎ In id (span_ids target) → In id (ordered_span_ids source target)
    back (inl s) = from_source s
    back (inr t) = elim (Bool-cases (member id (span_ids source))) [
      | inl s ↦ from_source (In-of_member id (span_ids source) s)
      | inr f ↦
          In-append_right id (span_ids source) (keep missing (span_ids target))
            (keep-In missing id (span_ids target) t (rw f refl))
    ]
