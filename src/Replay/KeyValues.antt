-- ===== src/Replay/KeyValues.antt =====
-- `json_to_value` and `parse_key_values` of crates/replay-engine/src/inputs.rs, with the texts of values.
use Prim.Native.Char.{Char, code}
use Prim.Native.String.{◌++◌}
use replay_kit.Common.{
  ℕ, suc, String, Bool, true, false, ◌&&◌, ◌||◌, Option, none, some, List, [], ◌∷◌,
}
use replay_kit.Common.Eq.{◌==◌, string_eq, string_ord}
use replay_kit.Common.Hex.{decimal}
use replay_kit.Common.Int.{ℤ, pos, negsuc}
use replay_kit.Common.Result.{Result, ok, err, ◌>>=◌}
use replay_kit.Common.Tests.{nat_beq, if◌then◌else◌}
use replay_kit.Common.Text.{trim, split_once}
use replay_kit.Model.Enums.{span_kind_eq}
use replay_kit.Model.Value.{Value, Values, Document, insert_field, fields_count}
use replay_kit.Replay.Template.{TemplateError}

-- The errors, each the name of its message with what it quotes.
pub data InputError : Type 0 where
  not_json no_object : InputError
  no_equals empty_key unknown_key : String → InputError
  not_key_values not_text : Value → InputError
  bad_bindings bad_env bad_replacement : InputError → InputError
  no_template : String → Value → InputError
  unrendered unrendered_patch : String → TemplateError → InputError

abbrev pub Input : Type 0 → Type 0
Input = Result InputError

-- `serde_json::Value`, as far as `json_to_value` looks into it: of a number, what its methods return.
pub record JsonNumber : Type 0 where
  pub as_i64 : Option ℤ
  pub text : String

mutual
  pub data Json : Type 0 where
    null : Json
    bool : Bool → Json
    number : JsonNumber → Json
    string : String → Json
    array : Jsons → Json
    object : JsonFields → Json

  pub data Jsons : Type 0 where
    nil : Jsons
    cons : Json → Jsons → Jsons

  pub data JsonFields : Type 0 where
    no_fields : JsonFields
    field : String → Json → JsonFields → JsonFields

-- `n.as_i64().map(Value::Int).unwrap_or_else(|| Value::Text(n.to_string()))`.
abbrev pub int_or : Option ℤ → String → Value
int_or none text = Value.text text
int_or (some n) text = Value.int n

unfoldable mutual
  pub json_to_value : Json → Value
  json_to_value null = Value.null
  json_to_value (bool b) = Value.bool b
  json_to_value (number n) = int_or n.as_i64 n.text
  json_to_value (string s) = Value.text s
  json_to_value (array items) = Value.array (json_values items)
  json_to_value (object fields) = Value.object (json_document fields)

  pub json_values : Jsons → Values
  json_values nil = Values.nil
  json_values (cons item items) = Values.cons (json_to_value item) (json_values items)

  -- The keys of a JSON object are distinct, so the order of the insertions makes no difference.
  pub json_document : JsonFields → Document
  json_document no_fields = Document.empty
  json_document (field key item fields) =
      insert_field key (json_to_value item) (json_document fields)

-- `str::lines`.
abbrev pub push_char : Char → List String → List String
push_char c [] = String.◌∷◌ c String.[] ∷ []
push_char c (l ∷ ls) = String.◌∷◌ c l ∷ ls

unfoldable pub split_lines : String → List String
split_lines String.[] = []
split_lines (String.◌∷◌ c s) =
    let rest = split_lines s in if nat_beq (code c) 10 then "" ∷ rest else push_char c rest

unfoldable pub strip_return : String → String
strip_return String.[] = String.[]
strip_return (String.◌∷◌ c s) =
    let rest = strip_return s in
    if nat_beq (code c) 13 && s == "" then String.[] else String.◌∷◌ c rest

unfoldable pub starts_char : ℕ → String → Bool
starts_char b String.[] = false
starts_char b (String.◌∷◌ c s) = nat_beq (code c) b

abbrev pub keyed : String → Option (String × String) → Input (Option (String × String))
keyed line none = err (no_equals line)
keyed line (some (key, val)) =
    let name = trim key in if name == "" then err (empty_key line) else ok (some (name, val))

-- The body of the loop over the lines: the entry that a line makes, if any.
unfoldable pub line_entry : String → Input (Option (String × String))
line_entry text =
    let line = trim text in
    if line == "" || starts_char b'#' line then ok none else keyed line (split_once b'=' line)

abbrev pub add_entry : Option (String × String) → Document → Document
add_entry none d = d
add_entry (some (key, val)) d = insert_field key (Value.text val) d

unfoldable pub parse_lines : List String → Document → Input Document
parse_lines [] out = ok out
parse_lines (line ∷ lines) out =
    line_entry (strip_return line) >>= λ entry. parse_lines lines (add_entry entry out)

abbrev pub only_object : Value → Input Document
only_object (Value.object d) = ok d
only_object _ = err no_object

-- `impl Display for Value`.
unfoldable pub values_count : Values → ℕ
values_count Values.nil = 0
values_count (Values.cons v vs) = suc (values_count vs)

unfoldable pub show_int : ℤ → String
show_int (pos n) = decimal n
show_int (negsuc n) = "-" ++ decimal (suc n)

unfoldable pub show_value : Value → String
show_value Value.null = "null"
show_value (Value.bool true) = "true"
show_value (Value.bool false) = "false"
show_value (Value.int n) = show_int n
show_value (Value.text s) = s
show_value (Value.array vs) = "array(" ++ decimal (values_count vs) ++ ")"
show_value (Value.object d) = "object(" ++ decimal (fields_count d) ++ ")"

-- The JSON of a text is what the `serde_json` package reads it as, which is a parameter.
module _ (parse_json : String → Option Json) where
  abbrev pub read_json : Option Json → Input Document
  read_json none = err not_json
  read_json (some json) = only_object (json_to_value json)

  unfoldable pub parse_key_values : Value → Input Document
  parse_key_values (Value.object d) = ok d
  parse_key_values (Value.text text) =
      let trimmed = trim text in
      if starts_char b'{' trimmed
      then read_json (parse_json trimmed)
      else parse_lines (split_lines trimmed) Document.empty
  parse_key_values Value.null = ok Document.empty
  parse_key_values other = err (not_key_values other)
