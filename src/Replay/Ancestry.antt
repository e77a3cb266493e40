-- ===== src/Replay/Ancestry.antt =====
-- `is_self_or_descendant`: the walk from a span up through its parents.
use mathlib.Core.Path.{subst}
use replay_kit.Common.{
  ℕ, zero, suc, ◌<◌, Bool, true, false, Option, none, some, ◌≡◌, ◌≢◌, refl, ◌↔◌, inl, inr, arith,
}
use replay_kit.Common.Eq.{◌==◌, string_eq}
use replay_kit.Common.Tests.{if◌then◌else◌, Bool-cases, Option-cases}
use replay_kit.Model.Records.{SpanId}

module _ (ancestor : SpanId) (parent_of : SpanId → Option SpanId) where
  -- The loop, with a bound on the number of its rounds: `none` when they run out.
  unfoldable pub climb : ℕ → Option SpanId → Option Bool
  climb fuel none = some false
  climb zero (some current) = none
  climb (suc fuel) (some current) =
      let rest = climb fuel (parent_of current) in if current == ancestor then some true else rest

  unfoldable pub is_self_or_descendant : ℕ → SpanId → Option Bool
  is_self_or_descendant fuel span_id = climb fuel (some span_id)

  -- A span is the ancestor, or its parent descends from it.
  pub data Descends : SpanId → Type 0 where
    here : {span_id : SpanId} → span_id ≡ ancestor → Descends span_id
    above :
        {span_id parent : SpanId}
        → parent_of span_id ≡ some parent
        → Descends parent
        → Descends span_id

  -- Another span than the ancestor descends from it by its parent only.
  Descends-parent :
      (span_id parent : SpanId)
      → span_id ≢ ancestor
      → parent_of span_id ≡ some parent
      → Descends span_id
      → Descends parent
  Descends-parent span_id parent other hit (here same) = absurd (other same)
  Descends-parent span_id parent other hit (above {parent = p} e d) =
      let same : p ≡ parent = ground arith in subst Descends same d

  Descends-root :
      (span_id : SpanId) → span_id ≢ ancestor → parent_of span_id ≡ none → Descends span_id → ⊥
  Descends-root span_id other miss (here same) = other same
  Descends-root span_id other miss (above e d) = cc

  module _ (rank : SpanId → ℕ)
      (falls : (span_id parent : SpanId)
        → parent_of span_id ≡ some parent
        → rank parent < rank span_id) where
    -- What a walk from a parent finds is what one from the span finds.
    step_up :
        (fuel : ℕ) (span_id parent : SpanId)
        → span_id ≢ ancestor
        → parent_of span_id ≡ some parent
        → (answer : Bool) × (climb fuel (some parent) ≡ some answer)
          × ((answer ≡ true) ↔ Descends parent)
        → (answer : Bool) × (climb fuel (parent_of span_id) ≡ some answer)
          × ((answer ≡ true) ↔ Descends span_id)
    step_up fuel span_id parent other hit (answer, found, right) = (
      answer,
      rw hit found,
      (λ e. above hit (right.0 e), λ d. right.1 (Descends-parent span_id parent other hit d)),
    )

    climb-Descends :
        (fuel : ℕ) (span_id : SpanId)
        → rank span_id < fuel
        → (answer : Bool) × (climb fuel (some span_id) ≡ some answer)
          × ((answer ≡ true) ↔ Descends span_id)
    unfolding climb
    climb-Descends zero span_id h = absurd (omega arith)
    climb-Descends (suc fuel) span_id h = elim (Bool-cases (span_id == ancestor)) [
      | inl t ↦
          (true, rw t refl, (λ e. here ((string_eq.equal_iff span_id ancestor).0 t), λ d. refl))
      | inr f ↦
          let other : span_id ≢ ancestor = λ e. cc ((string_eq.equal_iff span_id ancestor).1 e) in
          elim (Option-cases (parent_of span_id)) [
            | inl miss ↦ (
              false,
              rw (f, miss) refl,
              (λ e. cc, λ d. absurd (Descends-root span_id other miss d)),
            )
            | inr (parent, hit) ↦ rw f (
                step_up fuel span_id parent other hit
                  (climb-Descends fuel parent (omega (arith, falls span_id parent hit))))
          ]
    ]

    -- Where each span has a number that is above its parent's, such as the place at which it was
    -- recorded, and that is below the number of rounds, the walk ends with an answer, and the answer
    -- is true exactly if the span is the ancestor or descends from it.
    pub is_self_or_descendant-Descends :
        (fuel : ℕ) (span_id : SpanId)
        → rank span_id < fuel
        → (answer : Bool) × (is_self_or_descendant fuel span_id ≡ some answer)
          × ((answer ≡ true) ↔ Descends span_id)
    unfolding is_self_or_descendant
    is_self_or_descendant-Descends fuel span_id h = climb-Descends fuel span_id h
