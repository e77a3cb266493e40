-- ===== src/Replay/Plan/Predict.antt =====
-- The loop of `plan_state` over the dirty spans: which of them are predicted to be blocked.
use Prim.Native.String.{◌++◌}
use replay_kit.Common.{
  ℕ, suc, String, Bool, true, false, ◌&&◌, ◌||◌, Option, none, some, List, [], ◌∷◌, ◌++◌ as ◌+++◌,
  length, find,
}
use replay_kit.Common.Eq.{◌==◌, string_eq, string_ord, option_eq}
use replay_kit.Common.Map.{Map, get, contains_key, values}
use replay_kit.Common.Result.{Result, ok, err, map_err, ◌>>=◌}
use replay_kit.Common.Table.{or_empty}
use replay_kit.Common.Tests.{if◌then◌else◌}
use replay_kit.Model.Enums.{SpanKind, span_kind_eq}
use replay_kit.Model.Records.{SpanId, SpanRecord, DirtySpanRecord, BranchRequest}
use replay_kit.Replay.Ancestry.{is_self_or_descendant}
use replay_kit.Replay.Effective.{effective_span, span_env, in_scope, recorded_span, settled}
use replay_kit.Replay.Engine.{
  ReplayError, storage, endless, Machine, ExecutorRegistry, ReplayExecutionContext, new_context,
}
use replay_kit.Replay.Inputs.{PatchInputs, bindings_of}
use replay_kit.Replay.KeyValues.{Input}
use replay_kit.Replay.Layout.{Layout, parent_in}
use replay_kit.Replay.Rules.{PatchDisposition, is_container}
use replay_kit.Replay.Sandbox.{ReplayWorkspace}
use replay_kit.Replay.Template.{Parsed, template_references}
use replay_kit.Storage.State.{InMemoryStorage}
use replay_kit.Replay.Plan.Records.{Prediction, block, waits_message, patch_env_scope}

module _ {W : Type 0} (machine : Machine W) where
  module _ (registry : ExecutorRegistry W) (request : BranchRequest) (layout : Layout) where
    abbrev pub parent_of : SpanId → Option SpanId
    parent_of span_id = parent_in (get span_id layout.span_map)

    -- More rounds than a walk over the parents can take where they are not in a circle.
    abbrev pub rounds : ℕ
    rounds = suc (length layout.spans)

    abbrev pub env_scope : Option SpanId
    env_scope = patch_env_scope layout.patch request.fork_span_id

    unfoldable pub inherits : SpanId → Option Bool
    inherits span_id =
        in_scope machine env_scope (λ scope. is_self_or_descendant scope parent_of rounds span_id)

    abbrev pub is_fork : SpanId → Bool
    is_fork span_id = span_id == request.fork_span_id

    abbrev pub satisfies : PatchDisposition → Bool
    satisfies PatchDisposition.satisfies_span = true
    satisfies PatchDisposition.requires_execution = false

    abbrev pub patch_for : SpanId → Option PatchInputs
    patch_for span_id = if is_fork span_id then some layout.patch else none

    abbrev pub plan_context : Bool → ReplayExecutionContext
    plan_context planning =
        record (new_context request.source_run_id request.source_run_id request.fork_span_id) {
          planning = planning;
        }

    abbrev pub planning_workspace : ReplayWorkspace
    planning_workspace = record {
      sandbox = "/replaykit-sandbox";
      recorded_root = layout.recorded_root;
    }

    -- The first of the spans to wait for that is dirty and blocked.
    unfoldable pub blocked_upstream : SpanId → Map SpanId String → Option SpanId
    blocked_upstream span_id blocked =
        find (λ up. contains_key up layout.dirty && contains_key up blocked)
          (or_empty (get span_id layout.upstream))

    -- The warnings about prompts that a replayed output changes.
    unfoldable pub prompt_warnings : SpanRecord → List String → List String
    prompt_warnings span [] = []
    prompt_warnings span (referenced ∷ rest) =
        let more = prompt_warnings span rest in
        if contains_key referenced layout.dirty && span.kind == SpanKind.llm_call
        then (span.span_id ++ ": its prompt is re-rendered from the replayed output of "
            ++ referenced
            ++ "; a recorded-response model executor can only serve it if that output is unchanged")
          ∷ more
        else more

    abbrev pub references_or_none : Parsed (List String) → List String
    references_or_none (ok found) = found
    references_or_none (err e) = []

    unfoldable pub template_warnings : SpanRecord → List String → List String
    template_warnings span [] = []
    template_warnings span (template ∷ rest) =
        prompt_warnings span (references_or_none (settled template (template_references template)))
        +++ template_warnings span rest

    abbrev pub binding_warnings : SpanRecord → Input (Map String String) → List String
    binding_warnings span (ok bindings) = template_warnings span (values bindings)
    binding_warnings span (err e) = []

    module _ (st : InMemoryStorage) (w : W) where
      abbrev pub predict_check : SpanId → Result String (Unit {0}) → Prediction → Prediction
      predict_check span_id (ok done) p = p
      predict_check span_id (err reason) p = block span_id reason p

      abbrev pub predict_env :
          SpanRecord
          → SpanRecord
          → Option (Input (Map String String))
          → Prediction
          → Result ReplayError Prediction
      predict_env span effective none p = err endless
      predict_env span effective (some (err e)) p =
          ok (block span.span_id (machine.input_message e) p)
      predict_env span effective (some (ok env)) p = do
        recorded ← map_err storage (recorded_span machine span st)
        let context = record (plan_context true) {
          workspace = some planning_workspace;
          env = env;
          recorded = some recorded;
        }
        ok (predict_check span.span_id (registry.check effective context w) p)

      abbrev pub predict_effective :
          SpanRecord → Input SpanRecord → Prediction → Result ReplayError Prediction
      predict_effective span (err e) p = ok (block span.span_id (machine.input_message e) p)
      predict_effective span (ok effective) p =
          let warnings = binding_warnings span (bindings_of machine.parse_json span) in
          predict_env span effective (span_env machine span (inherits span.span_id) layout.patch)
            (record p { warnings = p.warnings +++ warnings })

      abbrev pub predict_upstream :
          SpanRecord → Option SpanId → Prediction → Result ReplayError Prediction
      predict_upstream span (some up) p = ok (block span.span_id (waits_message up) p)
      predict_upstream span none p =
          predict_effective span
            (effective_span machine span request.source_run_id (patch_for span.span_id) st) p

      -- Containers come later, and a span whose output is given by the patch does not run.
      abbrev pub passed_over : SpanRecord → Bool
      passed_over span =
          is_container span.kind || is_fork span.span_id && satisfies layout.disposition

      unfoldable pub predict_span : SpanRecord → Prediction → Result ReplayError Prediction
      predict_span span p = elim (passed_over span) [
        | true ↦ ok p
        | false ↦ predict_upstream span (blocked_upstream span.span_id p.blocked) p
      ]

      abbrev pub predict_found : Option SpanRecord → Prediction → Result ReplayError Prediction
      predict_found none p = ok p
      predict_found (some span) p = predict_span span p

      unfoldable pub predict_spans :
          List DirtySpanRecord → Prediction → Result ReplayError Prediction
      predict_spans [] p = ok p
      predict_spans (entry ∷ entries) p =
          predict_found (get entry.span_id layout.span_map) p >>= predict_spans entries
