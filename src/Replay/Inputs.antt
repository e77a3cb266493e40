-- ===== src/Replay/Inputs.antt =====
-- crates/replay-engine/src/inputs.rs, without its templates: what a patch gives a span to run with,
-- and the input bindings that a span was recorded with.
use replay_kit.Common.{String, Bool, true, false, ◌||◌, Option, none, some, [], ◌∷◌}
use replay_kit.Common.Eq.{◌==◌, string_eq, string_ord}
use replay_kit.Common.Map.{Map, insert}
use replay_kit.Common.Result.{ok, err, map_ok, map_err, ◌>>=◌}
use replay_kit.Common.Tests.{if◌then◌else◌}
use replay_kit.Common.Text.{trim_start}
use replay_kit.Model.Enums.{PatchType, SpanKind, span_kind_eq}
use replay_kit.Model.Records.{SpanRecord}
use replay_kit.Model.Value.{Value, Document, lookup_field, insert_field}
use replay_kit.Replay.KeyValues.{
  Input, Json, bad_bindings, not_text, no_template, unknown_key, starts_char, show_int, show_value,
  parse_key_values,
}

abbrev pub patched_attr : String
patched_attr = "patched"

-- `into_iter().map(...).collect()` of a parsed environment.
unfoldable pub env_of : Document → Map String String
env_of Document.empty = []
env_of (Document.entry k v d) = (k, show_value v) ∷ env_of d

unfoldable pub replacement_text : Value → Input String
replacement_text (Value.text text) = ok text
replacement_text (Value.int n) = ok (show_int n)
replacement_text (Value.bool true) = ok "true"
replacement_text (Value.bool false) = ok "false"
replacement_text Value.null = ok ""
replacement_text other = err (not_text other)

-- The templates of the bindings: each has to be a text.
unfoldable pub templates_of : Document → Input (Map String String)
templates_of Document.empty = ok []
templates_of (Document.entry k (Value.text template) d) =
    map_ok (λ rest. (k, template) ∷ rest) (templates_of d)
templates_of (Document.entry k other d) = err (no_template k other)

-- What a patch gives the fork span.
pub record PatchInputs : Type 0 where
  pub attributes : Document
  pub env : Map String String

abbrev pub no_inputs : PatchInputs
no_inputs = record { attributes = Document.empty; env = [] }

abbrev pub one_attribute : String → Value → PatchInputs
one_attribute key value = record { attributes = insert_field key value Document.empty; env = [] }

-- `for (key, value) in parsed { attributes.insert(key, value); }`.
unfoldable pub insert_all : Document → Document → Document
insert_all Document.empty target = target
insert_all (Document.entry k v d) target = insert_all d (insert_field k v target)

-- `env.extend(other)`.
unfoldable pub extend_env : Map String String → Map String String → Map String String
extend_env [] env = env
extend_env ((k, v) ∷ rest) env = extend_env rest (insert k v env)

unfoldable pub looks_like_object : Value → Bool
looks_like_object (Value.object d) = true
looks_like_object (Value.text t) = starts_char b'{' (trim_start t)
looks_like_object _ = false

module _ (parse_json : String → Option Json) where
  unfoldable pub parse_env : Value → Input (Map String String)
  parse_env value = map_ok env_of (parse_key_values parse_json value)

  abbrev pub bindings_in : Option Value → Input (Map String String)
  bindings_in none = ok []
  bindings_in (some value) =
      map_err bad_bindings (parse_key_values parse_json value) >>= templates_of

  unfoldable pub bindings_of : SpanRecord → Input (Map String String)
  bindings_of span = bindings_in (lookup_field "input_bindings" span.attributes)

  -- The body of the loop over the entries of an object that overrides a command.
  unfoldable pub command_entry : String → Value → PatchInputs → Input PatchInputs
  command_entry key value inputs =
      if key == "command" || key == "cwd"
      then ok (record inputs { attributes = insert_field key value inputs.attributes })
      else if key == "env"
      then map_ok (λ env. record inputs { env = env }) (parse_env value)
      else err (unknown_key key)

  unfoldable pub command_entries : Document → PatchInputs → Input PatchInputs
  command_entries Document.empty inputs = ok inputs
  command_entries (Document.entry key value rest) inputs =
      command_entry key value inputs >>= command_entries rest

  unfoldable pub command_inputs : Value → Input PatchInputs
  command_inputs replacement =
      if looks_like_object replacement
      then (parse_key_values parse_json replacement >>= λ d. command_entries d no_inputs)
      else map_ok (λ text. one_attribute "command" (Value.text text)) (replacement_text replacement)

  unfoldable pub patch_inputs : PatchType → Value → SpanRecord → Input PatchInputs
  patch_inputs PatchType.prompt_edit replacement span =
      map_ok (λ text. one_attribute "prompt" (Value.text text)) (replacement_text replacement)
  patch_inputs PatchType.model_config_edit replacement span =
      map_ok (λ d. record { attributes = insert_all d Document.empty; env = [] })
        (parse_key_values parse_json replacement)
  patch_inputs PatchType.env_var_override replacement span =
      map_ok (λ env. record { attributes = Document.empty; env = env }) (parse_env replacement)
  patch_inputs PatchType.command_override replacement span = command_inputs replacement
  patch_inputs PatchType.file_content_override replacement span =
      if span.kind == SpanKind.file_write
      then map_ok (λ text. one_attribute "content" (Value.text text)) (replacement_text replacement)
      else ok no_inputs
  patch_inputs _ replacement span = ok no_inputs
