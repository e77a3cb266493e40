-- ===== src/Replay/Parted/Rolled.antt =====
-- What `plan_state` rolls up: containers, and no dirty span.
use replay_kit.Replay.Parted.Laid.{some_of}
use mathlib.Core.Path.{subst}
use replay_kit.Common.{
  ℕ, zero, suc, Bool, true, false, ◌&&◌, inl, inr, Option, none, some, List, [], ◌∷◌, In, any,
  member, ◌≡◌, refl, sym, arith,
}
use replay_kit.Common.Eq.{string_eq, string_ord, negate}
use replay_kit.Common.Map.{get, contains_key}
use replay_kit.Common.Result.{ok, ok-chain}
use replay_kit.Common.Tests.{Bool-cases}
use replay_kit.Model.Records.{SpanId, SpanRecord, DirtySpanRecord, BranchRequest}
use replay_kit.Replay.Engine.{Machine, ExecutorRegistry}
use replay_kit.Replay.Rules.{is_container}
use replay_kit.Replay.Layout.{Layout}
use replay_kit.Replay.Plan.{roll_up, roll_up_from, roll_up_all, parent_of, rounds, derivable}
use replay_kit.Storage.State.{InMemoryStorage}

module _ {W : Type 0} (machine : Machine W) (registry : ExecutorRegistry W)
    (request : BranchRequest) (layout : Layout) (st : InMemoryStorage) (w : W) where
  abbrev pub is_dirty : SpanId → Bool
  is_dirty id = contains_key id layout.dirty

  -- No dirty span is rolled up.
  abbrev pub IsClean : List SpanId → Type 0
  IsClean rollup = any is_dirty rollup ≡ false

  roll_up-IsClean :
      (ancestor : SpanId) (rollup : List SpanId)
      → IsClean rollup
      → IsClean (roll_up machine registry request layout st w ancestor rollup)
  unfolding roll_up
  roll_up-IsClean ancestor rollup h = ground arith

  roll_up_from-IsClean :
      (fuel : ℕ) (ancestor : Option SpanId) (rollup found : List SpanId)
      → IsClean rollup
      → roll_up_from machine registry request layout st w fuel ancestor rollup ≡ some found
      → IsClean found
  unfolding roll_up_from
  roll_up_from-IsClean fuel none rollup found h e = ground arith
  roll_up_from-IsClean zero (some ancestor) rollup found h e = cc
  roll_up_from-IsClean (suc fuel) (some ancestor) rollup found h e =
      roll_up_from-IsClean fuel (parent_of machine registry request layout ancestor)
        (roll_up machine registry request layout st w ancestor rollup) found
        (roll_up-IsClean ancestor rollup h) e

  -- What is rolled up is a container.
  abbrev pub AllContainers : List SpanId → Type 0
  AllContainers rollup =
      (id : SpanId)
      → In id rollup
      → (c : SpanRecord) × (get id layout.span_map ≡ some c) × (is_container c.kind ≡ true)

  derived :
      (id : SpanId) (found : Option SpanRecord)
      → derivable machine registry request layout st w found ≡ true
      → (c : SpanRecord) × (found ≡ some c) × (is_container c.kind ≡ true)
  derived id none h = cc
  derived id (some c) h = (c, refl, ground arith)

  roll_up-AllContainers :
      (ancestor : SpanId) (rollup : List SpanId)
      → AllContainers rollup
      → AllContainers (roll_up machine registry request layout st w ancestor rollup)
  unfolding roll_up
  roll_up-AllContainers ancestor rollup all id =
      elim (Bool-cases (
        negate (is_dirty ancestor)
        && derivable machine registry request layout st w (get ancestor layout.span_map)
        && negate (member ancestor rollup))) [
          | inr f ↦ λ m. all id (rw (roll_up, f) at m)
          | inl t ↦ λ m. elim (rw (roll_up, t) at m) [
            | inr old ↦ all id old
            | inl e ↦
                subst
                  (λ i.
                    (c : SpanRecord) × (get i layout.span_map ≡ some c)
                    × (is_container c.kind ≡ true))
                  (sym e) (derived ancestor (get ancestor layout.span_map) (ground (arith, t)))
          ]
        ]

  roll_up_from-AllContainers :
      (fuel : ℕ) (ancestor : Option SpanId) (rollup found : List SpanId)
      → AllContainers rollup
      → roll_up_from machine registry request layout st w fuel ancestor rollup ≡ some found
      → AllContainers found
  unfolding roll_up_from
  roll_up_from-AllContainers fuel none rollup found h e =
      let same : rollup ≡ found = ground arith in subst AllContainers same h
  roll_up_from-AllContainers zero (some ancestor) rollup found h e = cc
  roll_up_from-AllContainers (suc fuel) (some ancestor) rollup found h e =
      roll_up_from-AllContainers fuel (parent_of machine registry request layout ancestor)
        (roll_up machine registry request layout st w ancestor rollup) found
        (roll_up-AllContainers ancestor rollup h) e

  pub roll_up_all-IsClean :
      (entries : List DirtySpanRecord) (rollup found : List SpanId)
      → IsClean rollup
      → roll_up_all machine registry request layout st w entries rollup ≡ ok found
      → IsClean found
  unfolding roll_up_all
  roll_up_all-IsClean [] rollup found h e = ground arith
  roll_up_all-IsClean (entry ∷ entries) rollup found h e =
      let (next, first, rest) = ok-chain _ _ e in
      roll_up_all-IsClean entries next found
        (roll_up_from-IsClean (rounds machine registry request layout)
          (parent_of machine registry request layout entry.span_id) rollup next h
          (some_of _ _ next first))
        rest

  pub roll_up_all-AllContainers :
      (entries : List DirtySpanRecord) (rollup found : List SpanId)
      → AllContainers rollup
      → roll_up_all machine registry request layout st w entries rollup ≡ ok found
      → AllContainers found
  unfolding roll_up_all
  roll_up_all-AllContainers [] rollup found h e =
      let same : rollup ≡ found = ground arith in subst AllContainers same h
  roll_up_all-AllContainers (entry ∷ entries) rollup found h e =
      let (next, first, rest) = ok-chain _ _ e in
      roll_up_all-AllContainers entries next found
        (roll_up_from-AllContainers (rounds machine registry request layout)
          (parent_of machine registry request layout entry.span_id) rollup next h
          (some_of _ _ next first))
        rest
