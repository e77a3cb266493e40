-- ===== src/Model/Summary/Failure.antt =====
-- The failure class of a run is that of a failed span of the greatest specificity.
use replay_kit.Common.{
  ◌≤◌, ◌<◌, ◌≡◌, ◌∙◌, refl, ◌⊎◌, inl, inr, true, false, some, List, [], ◌∷◌, arith, In, keep,
  In-keep, keep-In,
}
use replay_kit.Common.Tests.{Bool-cases, List-cases}
use replay_kit.Model.Enums.{RunStatus}
use replay_kit.Model.Records.{SpanRecord}
use replay_kit.Model.Summary.{
  span_contributes_error, classify_failure, specificity, key_lt, later, max_by_key, last_max,
  derived_failure_class,
}

-- `a` comes before `b`, or ties with it, in the order of `derived_failure_class`.
abbrev pub Before : SpanRecord → SpanRecord → Type 0
Before a b =
    (specificity a < specificity b)
    ⊎ ((specificity a ≡ specificity b) × (a.sequence_no ≤ b.sequence_no))

-- `later` of `a` and `b` is one of them, and both come before it.
module _ (a b : SpanRecord) where
  later_either : (later a b ≡ a) ⊎ (later a b ≡ b)
  unfolding later
  later_either = elim (Bool-cases (key_lt b a)) [
    | inl t ↦ inl (rw (t, later))
    | inr f ↦ inr (rw (f, later))
  ]

  key_lt-true : key_lt b a ≡ true → Before b a
  unfolding key_lt
  key_lt-true h = ground arith

  key_lt-false : key_lt b a ≡ false → Before a b
  unfolding key_lt
  key_lt-false h = ground arith

  later_left : Before a (later a b)
  unfolding later
  later_left = elim (Bool-cases (key_lt b a)) [
    | inl t ↦ rw (t, later) (inr (refl, omega arith))
    | inr f ↦ rw (f, later) (key_lt-false f)
  ]

  later_right : Before b (later a b)
  unfolding later
  later_right = elim (Bool-cases (key_lt b a)) [
    | inl t ↦ rw (t, later) (key_lt-true t)
    | inr f ↦ rw (f, later) (inr (refl, omega arith))
  ]

Before-trans : (a b c : SpanRecord) → Before a b → Before b c → Before a c
Before-trans a b c (inl p) (inl q) = inl (omega arith)
Before-trans a b c (inl p) (inr q) = inl (omega arith)
Before-trans a b c (inr p) (inl q) = inl (omega arith)
Before-trans a b c (inr p) (inr q) = inr (omega arith)

max_by_key-In : (best : SpanRecord) (xs : List SpanRecord) → In (max_by_key best xs) (best ∷ xs)
unfolding max_by_key
max_by_key-In best [] = inl refl
max_by_key-In best (x ∷ xs) = place (later_either best x) (max_by_key-In (later best x) xs)
  where
    place :
        {m : SpanRecord}
        → (later best x ≡ best) ⊎ (later best x ≡ x)
        → In m (later best x ∷ xs)
        → In m (best ∷ x ∷ xs)
    place (inl l) (inl e) = inl (e ∙ l)
    place (inr r) (inl e) = inr (inl (e ∙ r))
    place _ (inr h) = inr (inr h)

max_by_key-best : (best : SpanRecord) (xs : List SpanRecord) → Before best (max_by_key best xs)
unfolding max_by_key
max_by_key-best best [] = inr (refl, omega arith)
max_by_key-best best (x ∷ xs) =
    Before-trans best (later best x) (max_by_key (later best x) xs) (later_left best x)
      (max_by_key-best (later best x) xs)

max_by_key-last :
    (best : SpanRecord) (xs : List SpanRecord) (y : SpanRecord)
    → In y xs
    → Before y (max_by_key best xs)
unfolding max_by_key
max_by_key-last best [] y h = absurd h
max_by_key-last best (x ∷ xs) y (inr h) = max_by_key-last (later best x) xs y h
max_by_key-last best (x ∷ xs) y (inl e) = rw e (
    Before-trans x (later best x) (max_by_key (later best x) xs) (later_right best x)
      (max_by_key-best (later best x) xs))

-- `span` decides the failure class of a run with these spans.
pub record Decides (status : RunStatus) (spans : List SpanRecord) (span : SpanRecord) : Type 0 where
  pub recorded : In span spans
  pub failed : span_contributes_error span ≡ true
  pub class : derived_failure_class status spans ≡ some (classify_failure span)
  pub greatest :
      (other : SpanRecord)
      → In other spans
      → span_contributes_error other ≡ true
      → Before other span

Decides-max :
    (status : RunStatus) (spans : List SpanRecord) (x : SpanRecord) (xs : List SpanRecord)
    → keep span_contributes_error spans ≡ x ∷ xs
    → Decides status spans (max_by_key x xs)
unfolding derived_failure_class last_max
Decides-max status spans x xs e =
    let (recorded, failed) =
      In-keep span_contributes_error (max_by_key x xs) spans (rw e (max_by_key-In x xs)) in
    record {
      recorded = recorded;
      failed = failed;
      class = rw (e, derived_failure_class);
      greatest =
          λ other m f. below other (rw e at (keep-In span_contributes_error other spans m f));
    }
  where
    below : (other : SpanRecord) → In other (x ∷ xs) → Before other (max_by_key x xs)
    below other (inl p) = rw p (max_by_key-best x xs)
    below other (inr h) = max_by_key-last x xs other h

-- If some span failed, was blocked or was canceled, the failure class of the run is the class of
-- a recorded span that did, and no such span is more specific, or as specific and later.
pub failure_class_decided :
    (status : RunStatus) (spans : List SpanRecord) (culprit : SpanRecord)
    → In culprit spans
    → span_contributes_error culprit ≡ true
    → (span : SpanRecord) × Decides status spans span
failure_class_decided status spans culprit m f =
    elim (List-cases (keep span_contributes_error spans)) [
      | inl e ↦ absurd (rw e at (keep-In span_contributes_error culprit spans m f))
      | inr (x, xs, e) ↦ (max_by_key x xs, Decides-max status spans x xs e)
    ]
