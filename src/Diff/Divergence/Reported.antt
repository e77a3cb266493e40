-- ===== src/Diff/Divergence/Reported.antt =====
-- What a reported difference says of the span in the two runs, and which differences are reported.
use mathlib.Core.Path.{subst}
use Prim.Native.String.{◌++◌ as ◌+s+◌}
use replay_kit.Common.{
  ℕ, ◌-◌, String, Bool, true, false, Option, none, some, List, [], ◌∷◌, ◌++◌, map, keep, member,
  length, ◌≡◌, ◌≢◌, refl, sym, ap, ◌∙◌, In, inl, inr, ◌⊎◌, ◌↔◌, In-append, In-keep, member_of_In,
  arith,
}
use replay_kit.Common.Eq.{
  ◌==◌, string_eq, string_ord, option_eq, option_beq, option_beq_iff, negate,
}
use replay_kit.Common.Int.{sub_as_i64}
use replay_kit.Common.Map.{Map, get, insert, get-insert, get-nil, is_some}
use replay_kit.Common.Tests.{Bool-cases, Option-cases}
use replay_kit.Diff.Compare.{
  SpanDiff, build_span_diff, spans_differ, span_status_name, id_or, changed_reason, status_change,
  dirty_reason, delta, duration,
}
use replay_kit.Diff.Divergence.{differs, diff_of}
use replay_kit.Diff.Divergence.Found.{compare_all-visits}
use replay_kit.Diff.Runs.{span_ids, spans_from, by_id, ordered_span_ids, compare_all}
use replay_kit.Model.Enums.{span_status_eq}
use replay_kit.Model.Records.{SpanId, SpanRecord}

-- What is said of a span that both runs have.
pub record Changed (s t : SpanRecord) (d : SpanDiff) : Type 0 where
  pub name : d.name ≡ s.name
  pub same_status : s.status ≡ t.status → d.status_change ≡ none
  pub other_status :
      s.status ≢ t.status
      → d.status_change ≡ some (span_status_name s.status +s+ " -> " +s+ span_status_name t.status)
  pub output : (d.output_changed ≡ false) ↔ (s.output_fingerprint ≡ t.output_fingerprint)
  pub other_input :
      s.input_fingerprint ≢ t.input_fingerprint → d.dirty_reason ≡ some "fingerprint_changed"
  pub other_output :
      s.input_fingerprint ≡ t.input_fingerprint
      → s.output_fingerprint ≢ t.output_fingerprint
      → d.dirty_reason ≡ some "upstream_output_changed"
  pub otherwise :
      s.input_fingerprint ≡ t.input_fingerprint
      → s.output_fingerprint ≡ t.output_fingerprint
      → d.dirty_reason ≡ some "status_changed"
  pub slower :
      (e f : ℕ)
      → s.ended_at ≡ some e
      → t.ended_at ≡ some f
      → d.duration_ms_delta ≡ some (sub_as_i64 (f - t.started_at) (e - s.started_at))
  pub open_source : s.ended_at ≡ none → d.duration_ms_delta ≡ none
  pub open_target : t.ended_at ≡ none → d.duration_ms_delta ≡ none

-- What is said of a span that one run alone has, with the words for that.
pub record OneSided (word reason : String) (s : SpanRecord) (d : SpanDiff) : Type 0 where
  pub name : d.name ≡ s.name
  pub status : d.status_change ≡ some (word +s+ span_status_name s.status +s+ ")")
  pub output : d.output_changed ≡ is_some s.output_fingerprint
  pub cause : d.dirty_reason ≡ some reason
  pub no_delta : d.duration_ms_delta ≡ none

abbrev pub Describes : Option SpanRecord → Option SpanRecord → SpanDiff → Type 0
Describes none none d = ⊥
Describes (some s) none d = OneSided "Removed (" "removed_span" s d
Describes none (some t) d = OneSided "New (" "new_span" t d
Describes (some s) (some t) d = Changed s t d

has_fingerprint : (f : Option String) → negate (option_beq f none) ≡ is_some f
has_fingerprint none = refl
has_fingerprint (some x) = refl

lacks_fingerprint : (f : Option String) → negate (option_beq none f) ≡ is_some f
lacks_fingerprint none = refl
lacks_fingerprint (some x) = refl

delta-open : (a : ℕ) (e : Option ℕ) → delta (duration a e) none ≡ none
unfolding delta
delta-open a none = refl
delta-open a (some x) = refl

build-Changed :
    (id : SpanId) (s t : SpanRecord) → Changed s t (build_span_diff id (some s) (some t))
unfolding build_span_diff status_change dirty_reason changed_reason delta
build-Changed id s t = record {
  name = refl;
  same_status = λ e. ground (arith, span_status_eq.equal_iff s.status t.status);
  other_status = λ e. ground (arith, span_status_eq.equal_iff s.status t.status);
  output = ground (arith, option_beq_iff s.output_fingerprint t.output_fingerprint);
  other_input = λ e. ground (arith, option_beq_iff s.input_fingerprint t.input_fingerprint);
  other_output = λ e f. ground (
    arith,
    option_beq_iff s.input_fingerprint t.input_fingerprint,
    option_beq_iff s.output_fingerprint t.output_fingerprint,
  );
  otherwise = λ e f. ground (
    arith,
    option_beq_iff s.input_fingerprint t.input_fingerprint,
    option_beq_iff s.output_fingerprint t.output_fingerprint,
  );
  slower = λ e f p q. rw (p, q) refl;
  open_source = λ p. rw p refl;
  open_target = λ p. rw p (delta-open s.started_at s.ended_at);
}

build-Describes :
    (id : SpanId) (s t : Option SpanRecord)
    → spans_differ s t ≡ true
    → Describes s t (build_span_diff id s t)
unfolding build_span_diff status_change dirty_reason delta spans_differ
build-Describes id none none h = cc
build-Describes id (some s) none h = record {
  name = refl;
  status = refl;
  output = has_fingerprint s.output_fingerprint;
  cause = refl;
  no_delta = delta-open s.started_at s.ended_at;
}
build-Describes id none (some t) h = record {
  name = refl;
  status = refl;
  output = lacks_fingerprint t.output_fingerprint;
  cause = refl;
  no_delta = refl;
}
build-Describes id (some s) (some t) h = build-Changed id s t

-- The span that a list's map has under an id has that id.
by_id-key_from :
    (id : SpanId) (m : Map SpanId SpanRecord) (spans : List SpanRecord) {span : SpanRecord}
    → get id (spans_from m spans) ≡ some span
    → (span.span_id ≡ id) ⊎ (get id m ≡ some span)
by_id-key_from id m [] h = inr h
by_id-key_from id m (x ∷ spans) h = elim (by_id-key_from id (insert x.span_id x m) spans h) [
  | inl there ↦ inl there
  | inr found ↦ ground (arith, get-insert x.span_id id x m, string_eq.equal_iff x.span_id id)
]

by_id-key :
    (id : SpanId) (spans : List SpanRecord) {span : SpanRecord}
    → get id (by_id spans) ≡ some span
    → span.span_id ≡ id
by_id-key id spans h = elim (by_id-key_from id [] spans h) [
  | inl there ↦ there
  | inr found ↦ cc (get-nil id)
]

id_or-by_id : (id : SpanId) (spans : List SpanRecord) → id_or id (get id (by_id spans)) ≡ id
id_or-by_id id spans = elim (Option-cases (get id (by_id spans))) [
  | inl miss ↦ rw miss refl
  | inr (span, found) ↦ rw found (elim (Bool-cases (span.span_id == "")) [
    | inl t ↦ rw t refl
    | inr f ↦ rw f (by_id-key id spans found)
  ])
]

-- No element stands twice.
abbrev pub IsUnique : List SpanId → Type 0
IsUnique [] = Unit
IsUnique (x ∷ xs) = (In x xs → ⊥) × IsUnique xs

keep-IsUnique : (p : SpanId → Bool) (xs : List SpanId) → IsUnique xs → IsUnique (keep p xs)
keep-IsUnique p [] u = tt
keep-IsUnique p (x ∷ xs) u = elim (Bool-cases (p x)) [
  | inl t ↦ rw t (λ m. u.0 (In-keep p x xs m).0, keep-IsUnique p xs u.1)
  | inr f ↦ rw f (keep-IsUnique p xs u.1)
]

append-IsUnique :
    (xs ys : List SpanId)
    → IsUnique xs
    → IsUnique ys
    → ((x : SpanId) → In x xs → In x ys → ⊥)
    → IsUnique (xs ++ ys)
append-IsUnique [] ys u v apart = v
append-IsUnique (x ∷ xs) ys u v apart = (
  λ m. elim (In-append x xs ys m) [ inl l ↦ u.0 l | inr r ↦ apart x (inl refl) r ],
  append-IsUnique xs ys u.1 v (λ y l r. apart y (inr l) r),
)

map-length : {A B : Type 0} (f : A → B) (xs : List A) → length (map f xs) ≡ length xs
map-length f [] = refl
map-length f (x ∷ xs) = omega (arith, map-length f xs)

module _ (source target : List SpanRecord) where
  abbrev visited : List SpanId
  visited = span_ids source ++ keep (λ id. negate (member id (span_ids source))) (span_ids target)

  abbrev reported : List SpanId
  reported = keep (differs (by_id source) (by_id target)) visited

  abbrev ids_of : List SpanDiff → List SpanId
  ids_of = map (λ d. d.span_id_source)

  ids-diffs : (ids : List SpanId) → ids_of (map (diff_of (by_id source) (by_id target)) ids) ≡ ids
  unfolding diff_of build_span_diff
  ids-diffs [] = refl
  ids-diffs (id ∷ ids) = cc (id_or-by_id id source, ids-diffs ids)

  visited-IsUnique : IsUnique (span_ids source) → IsUnique (span_ids target) → IsUnique visited
  visited-IsUnique u v =
      append-IsUnique (span_ids source) _ u (keep-IsUnique _ (span_ids target) v) (λ x l r.
        let (m, new) = In-keep (λ id. negate (member id (span_ids source))) x (span_ids target) r in
        cc (member_of_In x (span_ids source) l, new))

  diff_of-Describes :
      (id : SpanId)
      → differs (by_id source) (by_id target) id ≡ true
      → let d = diff_of (by_id source) (by_id target) id in
        (d.span_id_target ≡ d.span_id_source)
        × Describes (get d.span_id_source (by_id source)) (get d.span_id_source (by_id target)) d
  unfolding diff_of differs build_span_diff
  diff_of-Describes id h =
      let here = id_or-by_id id source in
      (
        id_or-by_id id target ∙ sym here,
        subst
            (λ i.
              Describes (get i (by_id source)) (get i (by_id target))
                (diff_of (by_id source) (by_id target) id))
            (sym here) (build-Describes id (get id (by_id source)) (get id (by_id target)) h),
      )

  In-diffs :
      (x : SpanDiff) (ids : List SpanId)
      → In x (map (diff_of (by_id source) (by_id target)) ids)
      → (id : SpanId) × In id ids × (x ≡ diff_of (by_id source) (by_id target) id)
  In-diffs x [] m = absurd m
  In-diffs x (id ∷ ids) (inl e) = (id, inl refl, e)
  In-diffs x (id ∷ ids) (inr m) = let (i, n, e) = In-diffs x ids m in (i, inr n, e)

  -- For two runs that have no span twice, the differences that are reported are, each once, those of
  -- the spans that differ: the ones of the source run in its order, and then those that the target
  -- run alone has. The count of changed spans is their number, and each says of its span in both runs
  -- the name, the change of the status, of the output and of the duration, and the reason.
  pub compare_all-differs :
      IsUnique (span_ids source)
      → IsUnique (span_ids target)
      → (map (λ d. d.span_id_source) (compare_all source target).span_diffs
          ≡ keep (differs (by_id source) (by_id target)) (
              span_ids source
              ++ keep (λ id. negate (member id (span_ids source))) (span_ids target)))
        × IsUnique (map (λ d. d.span_id_source) (compare_all source target).span_diffs)
        × ((compare_all source target).changed_span_count
            ≡ length (compare_all source target).span_diffs)
        × ((d : SpanDiff)
            → In d (compare_all source target).span_diffs
            → (d.span_id_target ≡ d.span_id_source)
              × Describes
                  (get d.span_id_source (by_id source))
                  (get d.span_id_source (by_id target))
                  d)
  unfolding ordered_span_ids
  compare_all-differs u v =
      let (diffs, count) = compare_all-visits source target in
      let ids : ids_of (compare_all source target).span_diffs ≡ reported =
        ap ids_of diffs ∙ ids-diffs reported in
      (
        ids,
        subst IsUnique (sym ids) (keep-IsUnique _ visited (visited-IsUnique u v)),
        count ∙ sym (ap length diffs ∙ map-length (diff_of (by_id source) (by_id target)) reported),
        λ d m.
            let (id, n, e) = In-diffs d reported (subst (In d) diffs m) in
            subst
              (λ x.
                (x.span_id_target ≡ x.span_id_source)
                × Describes (get x.span_id_source (by_id source))
                    (get x.span_id_source (by_id target)) x)
              (sym e) (diff_of-Describes id (In-keep _ id visited n).1),
      )
