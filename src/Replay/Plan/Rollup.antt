-- ===== src/Replay/Plan/Rollup.antt =====
-- The containers of a plan: those whose status is derived again, and those that are blocked.
use Prim.Native.String.{◌++◌}
use replay_kit.Common.{
  ℕ, zero, suc, ◌-◌, String, Bool, true, false, ◌&&◌, ◌||◌, Option, none, some, List, [], ◌∷◌,
  member, keep, find,
}
use replay_kit.Common.Eq.{◌==◌, string_eq, string_ord, option_eq, negate}
use replay_kit.Common.Map.{Map, get, insert, contains_key}
use replay_kit.Common.Result.{Result, ok, err, ok_or, ◌>>=◌}
use replay_kit.Common.Sort.{sort_by_key}
use replay_kit.Common.Tests.{if◌then◌else◌}
use replay_kit.Model.Enums.{span_kind_eq}
use replay_kit.Model.Records.{SpanId, SpanRecord, DirtySpanRecord, BranchRequest}
use replay_kit.Model.Summary.{u64_max}
use replay_kit.Replay.Engine.{ReplayError, endless, Machine, ExecutorRegistry}
use replay_kit.Replay.Layout.{Layout}
use replay_kit.Replay.Rules.{is_container}
use replay_kit.Storage.State.{InMemoryStorage}
use replay_kit.Replay.Plan.Predict.{parent_of, rounds, plan_context}

module _ {W : Type 0} (machine : Machine W) where
  module _ (registry : ExecutorRegistry W) (request : BranchRequest) (layout : Layout) where
    module _ (st : InMemoryStorage) (w : W) where
      -- The containers above the dirty spans that the registry can derive again.
      abbrev pub is_ok : Result String (Unit {0}) → Bool
      is_ok (ok done) = true
      is_ok (err reason) = false

      abbrev pub derivable : Option SpanRecord → Bool
      derivable none = false
      derivable (some span) =
          is_container span.kind
          && is_ok (registry.check span (plan_context machine registry request layout false) w)

      unfoldable pub roll_up : SpanId → List SpanId → List SpanId
      roll_up ancestor rollup =
          if negate (contains_key ancestor layout.dirty)
            && derivable (get ancestor layout.span_map)
            && negate (member ancestor rollup)
          then ancestor ∷ rollup
          else rollup

      unfoldable pub roll_up_from : ℕ → Option SpanId → List SpanId → Option (List SpanId)
      roll_up_from fuel none rollup = some rollup
      roll_up_from zero (some ancestor) rollup = none
      roll_up_from (suc fuel) (some ancestor) rollup =
          roll_up_from fuel (parent_of machine registry request layout ancestor)
            (roll_up ancestor rollup)

      unfoldable pub roll_up_all :
          List DirtySpanRecord → List SpanId → Result ReplayError (List SpanId)
      roll_up_all [] rollup = ok rollup
      roll_up_all (entry ∷ entries) rollup =
          ok_or
            (roll_up_from (rounds machine registry request layout)
              (parent_of machine registry request layout entry.span_id) rollup)
            endless
          >>= roll_up_all entries

      -- The loop over the containers: they are blocked by themselves or by a child.
      abbrev pub blocked_child : SpanId → Map SpanId String → Option SpanRecord
      blocked_child container blocked =
          find (λ span. span.parent_span_id == some container && contains_key span.span_id blocked)
            layout.spans

      abbrev pub block_by_child : SpanId → Option SpanRecord → Map SpanId String → Map SpanId String
      block_by_child container none blocked = blocked
      block_by_child container (some child) blocked =
          insert container ("child span " ++ child.span_id ++ " is blocked") blocked

      abbrev pub block_checked :
          SpanId → Result String (Unit {0}) → Map SpanId String → Map SpanId String
      block_checked container (err reason) blocked = insert container reason blocked
      block_checked container (ok done) blocked =
          block_by_child container (blocked_child container blocked) blocked

      unfoldable pub block_container : SpanRecord → Map SpanId String → Map SpanId String
      block_container container blocked = elim (contains_key container.span_id layout.dirty) [
        | true ↦
            block_checked container.span_id
              (registry.check container (plan_context machine registry request layout true) w)
              blocked
        | false ↦ block_checked container.span_id (ok tt) blocked
      ]

      unfoldable pub block_containers : List SpanRecord → Map SpanId String → Map SpanId String
      block_containers [] blocked = blocked
      block_containers (container ∷ rest) blocked =
          block_containers rest (block_container container blocked)

    -- The containers that are dirty or rolled up, the last recorded first.
    unfoldable pub containers_of : List SpanId → List SpanRecord
    containers_of rollup =
        let replayed =
          keep
            (λ span.
              is_container span.kind
              && (contains_key span.span_id layout.dirty || member span.span_id rollup))
            layout.spans in
        sort_by_key (λ span. u64_max - span.sequence_no) replayed
