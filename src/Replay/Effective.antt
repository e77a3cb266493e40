-- ===== src/Replay/Effective.antt =====
-- What the engine works out for one span: `recorded_span`, `output_text`, `effective_span`, `span_env`
-- and `inputs_fingerprint`.
use Prim.Native.String.{◌++◌}
use replay_kit.Common.{String, Bool, true, false, ◌||◌, Option, none, some, List, [], ◌∷◌}
use replay_kit.Common.Eq.{◌==◌, string_eq}
use replay_kit.Common.Map.{Map, is_some}
use replay_kit.Common.Result.{Result, ok, err, map_err, map_ok, ◌>>=◌}
use replay_kit.Common.Tests.{if◌then◌else◌}
use replay_kit.Common.Text.{contains_text}
use replay_kit.Common.Utf8.{utf8}
use replay_kit.Model.Records.{RunId, SpanId, ArtifactId, SpanRecord, ArtifactRecord}
use replay_kit.Model.Value.{Value, Document, lookup_field, insert_field}
use replay_kit.Replay.Engine.{Machine, RecordedSpan, RecordedOutput}
use replay_kit.Replay.Inputs.{PatchInputs, patched_attr, bindings_of, parse_env, extend_env}
use replay_kit.Replay.KeyValues.{Input, bad_env, unrendered, unrendered_patch}
use replay_kit.Replay.Template.{Parsed, unterminated, render_template}
use replay_kit.Storage.Artifacts.{read_artifact_content}
use replay_kit.Storage.Blob.{Bytes}
use replay_kit.Storage.Error.{Checked}
use replay_kit.Storage.State.{InMemoryStorage, get_span, get_artifact}

abbrev pub inline_content_key : String
inline_content_key = "inline_content"

-- The search for placeholders ends (Template/Bounds), so there is always a result.
abbrev pub settled : {A : Type 0} → String → Option (Parsed A) → Parsed A
settled template none = err (unterminated template)
settled template (some parsed) = parsed

-- `.ok()`.
abbrev pub to_option : {E A : Type 0} → Result E A → Option A
to_option (ok a) = some a
to_option (err e) = none

abbrev pub first_of : {A : Type 0} → List A → Option A
first_of [] = none
first_of (x ∷ xs) = some x

module _ {W : Type 0} (machine : Machine W) where
  -- The outputs of a recorded span, with their contents where those are stored.
  unfoldable pub recorded_outputs :
      RunId → List ArtifactId → InMemoryStorage → Checked (List RecordedOutput)
  recorded_outputs run_id [] st = ok []
  recorded_outputs run_id (id ∷ ids) st =
      get_artifact machine.env run_id id st.state >>= λ artifact.
      recorded_outputs run_id ids st >>= λ rest.
      let content = to_option (read_artifact_content machine.env run_id id st) in
      ok (record { artifact = artifact; content = content } ∷ rest)

  unfoldable pub recorded_span : SpanRecord → InMemoryStorage → Checked RecordedSpan
  recorded_span span st =
      map_ok (λ outputs. record { span = span; outputs = outputs })
        (recorded_outputs span.run_id span.output_artifact_ids st)

  -- The text that an artifact without stored content keeps in its summary.
  abbrev pub inline_text : Option ArtifactRecord → Option Value
  inline_text none = none
  inline_text (some artifact) = lookup_field inline_content_key artifact.summary

  abbrev pub text_or : Option Value → String → Result String String
  text_or (some (Value.text text)) message = ok text
  text_or _ message = err message

  abbrev pub content_text :
      RunId → SpanId → ArtifactId → Checked Bytes → InMemoryStorage → Result String String
  content_text run_id span_id artifact_id (ok bytes) st = ok (machine.from_utf8_lossy bytes)
  content_text run_id span_id artifact_id (err e) st =
      text_or (inline_text (to_option (get_artifact machine.env run_id artifact_id st.state)))
        ("output of span " ++ span_id ++ " has no stored content: " ++ machine.storage_message e)

  abbrev pub first_output_text :
      RunId → SpanId → Option ArtifactId → InMemoryStorage → Result String String
  first_output_text run_id span_id none st =
      err ("upstream span " ++ span_id ++ " has no output to bind")
  first_output_text run_id span_id (some artifact_id) st =
      content_text run_id span_id artifact_id
        (read_artifact_content machine.env run_id artifact_id st) st

  unfoldable pub output_text : RunId → InMemoryStorage → SpanId → Result String String
  output_text run_id st span_id =
      map_err (λ _. "input binding references unknown span " ++ span_id)
        (get_span run_id span_id st.state)
      >>= λ span. first_output_text run_id span_id (first_of span.output_artifact_ids) st

  module _ (lookup : SpanId → Result String String) where
    abbrev pub rendered : String → Parsed String
    rendered template = settled template (render_template template lookup)

    abbrev pub is_patched : String → Option PatchInputs → Bool
    is_patched attribute none = false
    is_patched attribute (some patch) = is_some (lookup_field attribute patch.attributes)

    -- The loop over the input bindings, but those of attributes that the patch gives.
    abbrev pub bind_one : Bool → String → String → Document → Input Document
    bind_one true attribute template attributes = ok attributes
    bind_one false attribute template attributes =
        map_ok (λ text. insert_field attribute (Value.text text) attributes)
          (map_err (unrendered attribute) (rendered template))

    unfoldable pub bind_inputs : Map String String → Option PatchInputs → Document → Input Document
    bind_inputs [] patch attributes = ok attributes
    bind_inputs ((attribute, template) ∷ rest) patch attributes =
        bind_one (is_patched attribute patch) attribute template attributes
        >>= bind_inputs rest patch

    -- The value of a patched attribute, rendered if it is a text with a placeholder.
    unfoldable pub patched_value : String → Value → Input Value
    patched_value attribute (Value.text text) = elim (contains_text text "{{") [
      | true ↦ map_ok Value.text (map_err (unrendered_patch attribute) (rendered text))
      | false ↦ ok (Value.text text)
    ]
    patched_value attribute other = ok other

    unfoldable pub patch_attributes : Document → Document → Input Document
    patch_attributes Document.empty attributes = ok attributes
    patch_attributes (Document.entry attribute value rest) attributes =
        patched_value attribute value >>= λ final.
        patch_attributes rest (insert_field attribute final attributes)

    abbrev pub apply_patch : Option PatchInputs → Document → Input Document
    apply_patch none attributes = ok attributes
    apply_patch (some patch) attributes = patch_attributes patch.attributes attributes

  unfoldable pub effective_span :
      SpanRecord → RunId → Option PatchInputs → InMemoryStorage → Input SpanRecord
  effective_span span lookup_run patch st =
      let lookup = output_text lookup_run st in
      bindings_of machine.parse_json span >>= λ bindings.
      bind_inputs lookup bindings patch span.attributes >>= λ bound.
      apply_patch lookup patch bound >>= λ attributes. ok (record span { attributes = attributes })

  abbrev pub recorded_env : Option Value → Input (Map String String)
  recorded_env none = ok []
  recorded_env (some value) = map_err bad_env (parse_env machine.parse_json value)

  abbrev pub extend_if : Bool → Map String String → Map String String → Map String String
  extend_if true patch_env env = extend_env patch_env env
  extend_if false patch_env env = env

  -- Whether the span inherits the environment that the patch sets: it is in the scope's subtree. No
  -- answer stands for a walk over the parents that does not end.
  unfoldable pub in_scope : Option SpanId → (SpanId → Option Bool) → Option Bool
  in_scope none descends = some false
  in_scope (some scope) descends = descends scope

  abbrev pub with_patch :
      Option Bool → PatchInputs → Map String String → Option (Input (Map String String))
  with_patch none patch env = none
  with_patch (some inherits) patch env = some (ok (extend_if inherits patch.env env))

  abbrev pub env_with :
      Input (Map String String) → Option Bool → PatchInputs → Option (Input (Map String String))
  env_with (err e) inherits patch = some (err e)
  env_with (ok env) inherits patch = with_patch inherits patch env

  unfoldable pub span_env :
      SpanRecord → Option Bool → PatchInputs → Option (Input (Map String String))
  span_env span inherits patch =
      env_with (recorded_env (lookup_field "env" span.attributes)) inherits patch

  -- The lines of the attributes, but the marks of a replay, and those of the environment.
  unfoldable pub attribute_lines : Document → String
  attribute_lines Document.empty = ""
  attribute_lines (Document.entry key value rest) =
      let lines = attribute_lines rest in
      if key == patched_attr || key == "replay"
      then lines
      else key ++ "=" ++ machine.debug_value value ++ "\n" ++ lines

  unfoldable pub env_lines : Map String String → String
  env_lines [] = ""
  env_lines ((key, value) ∷ rest) = "env:" ++ key ++ "=" ++ value ++ "\n" ++ env_lines rest

  unfoldable pub inputs_fingerprint : Document → Map String String → String
  inputs_fingerprint attributes env =
      "inputs:" ++ machine.env.sha256_hex (utf8 (attribute_lines attributes ++ env_lines env))
