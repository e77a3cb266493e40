-- ===== src/Replay/BasePoint.antt =====
-- `base_point_index`: the workspace snapshot that the sandbox of a replay starts from.
use replay_kit.Common.{
  ℕ, suc, Bool, true, false, ◌&&◌, Option, none, some, List, [], ◌∷◌, ◌++◌, any, length, ◌≡◌, refl,
  ap, ◌↔◌, ◌⊎◌, inl, inr, arith,
}
use replay_kit.Common.Eq.{◌==◌, string_eq, option_eq}
use replay_kit.Common.Map.{Map, get}
use replay_kit.Common.Tests.{leb, Bool-cases, Option-cases}
use replay_kit.Model.Records.{SpanId, SpanRecord}
use replay_kit.Workspace.Points.{WorkspacePhase, WorkspacePoint}

module _ {A : Type 0} where
  -- `iter().position(p)` and `iter().rposition(p)`: the first and the last place.
  unfoldable pub position : (A → Bool) → List A → Option ℕ
  position p [] = none
  position p (x ∷ xs) = elim (p x) [
    | true ↦ some 0
    | false ↦ elim (position p xs) [ none ↦ none | some i ↦ some (suc i) ]
  ]

  unfoldable pub rposition : (A → Bool) → List A → Option ℕ
  rposition p [] = none
  rposition p (x ∷ xs) = elim (rposition p xs) [
    | some i ↦ some (suc i)
    | none ↦ elim (p x) [ true ↦ some 0 | false ↦ none ]
  ]

  -- A list parted at its place `i`.
  pub record PartedAt (i : ℕ) (xs : List A) : Type 0 where
    pub left : List A
    pub element : A
    pub right : List A
    pub whole : xs ≡ left ++ element ∷ right
    pub place : length left ≡ i

unfoldable pub is_before : WorkspacePhase → Bool
is_before WorkspacePhase.before = true
is_before WorkspacePhase.after = false
is_before WorkspacePhase.end = false

-- The point was taken right before the span started.
unfoldable pub taken_before : SpanRecord → WorkspacePoint → Bool
taken_before first point = is_before point.phase && point.span_id == some first.span_id

module _ (span_map : Map SpanId SpanRecord) where
  unfoldable pub starts_by : SpanRecord → Option SpanId → Bool
  starts_by first none = false
  starts_by first (some span_id) = elim (get span_id span_map) [
    | none ↦ false
    | some span ↦ leb span.sequence_no first.sequence_no
  ]

  -- The point was taken before a span that is no later than the first.
  unfoldable pub taken_earlier : SpanRecord → WorkspacePoint → Bool
  taken_earlier first point = is_before point.phase && starts_by first point.span_id

  unfoldable pub base_point_index : List WorkspacePoint → SpanRecord → Option ℕ
  base_point_index points first = elim (position (taken_before first) points) [
    | some index ↦ some index
    | none ↦ rposition (taken_earlier first) points
  ]

next_place : {i j n : ℕ} → some (suc j) ≡ some i → n ≡ j → suc n ≡ i
next_place same at_j = ground arith

first_place : {i : ℕ} → some 0 ≡ some i → 0 ≡ i
first_place same = ground arith

module _ {A : Type 0} (p : A → Bool) where
  abbrev pub IsFirst : {i : ℕ} {xs : List A} → PartedAt i xs → Type 0
  IsFirst parted = (p parted.element ≡ true) × (any p parted.left ≡ false)

  abbrev pub IsLast : {i : ℕ} {xs : List A} → PartedAt i xs → Type 0
  IsLast parted = (p parted.element ≡ true) × (any p parted.right ≡ false)

  unfoldable after_one :
      (x : A) {i j : ℕ} {xs : List A} → some (suc j) ≡ some i → PartedAt j xs → PartedAt i (x ∷ xs)
  after_one x same parted = record {
    left = x ∷ parted.left;
    element = parted.element;
    right = parted.right;
    whole = ap (λ l. x ∷ l) parted.whole;
    place = next_place same parted.place;
  }

  unfoldable at_start : (x : A) {i : ℕ} (xs : List A) → some 0 ≡ some i → PartedAt i (x ∷ xs)
  at_start x xs same = record {
    left = [];
    element = x;
    right = xs;
    whole = refl;
    place = first_place same;
  }

  position-First :
      (i : ℕ) (xs : List A) → position p xs ≡ some i → (parted : PartedAt i xs) × IsFirst parted
  unfolding position at_start after_one
  position-First i [] h = cc
  position-First i (x ∷ xs) h = elim (Bool-cases (p x)) [
    | inl t ↦ (at_start x xs (rw (t, position) at h), (t, refl))
    | inr f ↦ elim (Option-cases (position p xs)) [
      | inl e ↦ cc (rw (f, e, position) at h)
      | inr (j, e) ↦
          let (parted, (hit, missed)) = position-First j xs e in
          (after_one x (rw (f, e, position) at h) parted, (hit, rw f missed))
    ]
  ]

  position-none : (xs : List A) → (position p xs ≡ none) ↔ (any p xs ≡ false)
  unfolding position
  position-none [] = (λ h. refl, λ h. refl)
  position-none (x ∷ xs) = ground (arith, position-none xs)

  rposition-none : (xs : List A) → (rposition p xs ≡ none) ↔ (any p xs ≡ false)
  unfolding rposition
  rposition-none [] = (λ h. refl, λ h. refl)
  rposition-none (x ∷ xs) = ground (arith, rposition-none xs)

  rposition-Last :
      (i : ℕ) (xs : List A) → rposition p xs ≡ some i → (parted : PartedAt i xs) × IsLast parted
  unfolding rposition at_start after_one
  rposition-Last i [] h = cc
  rposition-Last i (x ∷ xs) h = elim (Option-cases (rposition p xs)) [
    | inr (j, e) ↦
        let (parted, last) = rposition-Last j xs e in (after_one x (rw e at h) parted, last)
    | inl e ↦ elim (Bool-cases (p x)) [
      | inl t ↦ (at_start x xs (rw (e, t) at h), (t, (rposition-none xs).0 e))
      | inr f ↦ cc (rw (e, f) at h)
    ]
  ]

module _ (span_map : Map SpanId SpanRecord) (points : List WorkspacePoint)
    (first : SpanRecord) where
  -- The first point right before the span, or without one the last point before an earlier span.
  abbrev pub Chosen : {i : ℕ} → PartedAt i points → Type 0
  Chosen parted =
      IsFirst (taken_before first) parted
      ⊎ ((any (taken_before first) points ≡ false) × IsLast (taken_earlier span_map first) parted)

  -- The index that `base_point_index` returns is that of the first point that was taken right before
  -- the span started, or, where there is none, of the last point that was taken before a span with a
  -- sequence number no greater than the span's.
  pub base_point_index-Chosen :
      (i : ℕ)
      → base_point_index span_map points first ≡ some i
      → (parted : PartedAt i points) × Chosen parted
  unfolding base_point_index
  base_point_index-Chosen i h = elim (Option-cases (position (taken_before first) points)) [
    | inr (j, e) ↦
        let (parted, hit) = position-First (taken_before first) i points (ground (arith, e, h)) in
        (parted, inl hit)
    | inl e ↦
        let (parted, hit) =
          rposition-Last (taken_earlier span_map first) i points (rw (e, base_point_index) at h) in
        (parted, inr ((position-none (taken_before first) points).0 e, hit))
  ]

  -- `base_point_index` returns no index exactly if no point was taken right before the span, and none
  -- before a span with a sequence number no greater than the span's.
  pub base_point_index-none : (base_point_index span_map points first ≡ none) ↔ (
      (any (taken_before first) points ≡ false)
      × (any (taken_earlier span_map first) points ≡ false))
  unfolding base_point_index
  base_point_index-none = ground (
    arith,
    position-none (taken_before first) points,
    rposition-none (taken_earlier span_map first) points,
  )
