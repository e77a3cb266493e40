-- ===== src/Replay/Template.antt =====
-- The templates of crates/replay-engine/src/inputs.rs: `{{span_id|filter}}` placeholders, found and
-- rendered. Offsets are counted in characters: they serve to cut the template at them only.
pub mod Bounds
pub mod Rendered
use Prim.Native.String.{◌++◌}
use replay_kit.Common.{
  ℕ, zero, suc, ◌+◌, ◌-◌, String, Bool, true, false, ◌||◌, Option, none, some, List, [], ◌∷◌, map,
}
use replay_kit.Common.Eq.{◌==◌, string_eq}
use replay_kit.Common.Result.{Result, ok, err, map_ok, ◌>>=◌}
use replay_kit.Common.Text.{
  trim, char_count, take_chars, drop_chars, find_doubled, split_once, squeeze,
}
use replay_kit.Common.Tests.{if◌then◌else◌}

-- The errors, each the name of its message with the arguments; the last is what a lookup reports.
pub data TemplateError : Type 0 where
  unterminated empty_placeholder unknown_filter lookup_failed : String → TemplateError

pub record Placeholder : Type 0 where
  pub span_id : String
  pub filter : Option String

-- A placeholder, and where it stands: `(usize, usize, Placeholder)`.
pub record Found : Type 0 where
  pub start : ℕ
  pub stop : ℕ
  pub placeholder : Placeholder

abbrev pub Parsed : Type 0 → Type 0
Parsed A = Result TemplateError A

unfoldable pub split_filter : String → Placeholder
split_filter inner = elim (split_once b'|' inner) [
  | none ↦ record { span_id = inner; filter = none }
  | some parts ↦ record { span_id = trim parts.0; filter = some (trim parts.1) }
]

unfoldable pub check_filter : Option String → Parsed (Unit {0})
check_filter none = ok tt
check_filter (some filter) =
    if filter == "trim" || filter == "words" || filter == "raw"
    then ok tt
    else err (unknown_filter filter)

abbrev pub prepend : Found → Option (Parsed (List Found)) → Option (Parsed (List Found))
prepend found none = none
prepend found (some rest) = some (map_ok (λ l. found ∷ l) rest)

abbrev pub references : List Found → List String
references = map (λ found. found.placeholder.span_id)

unfoldable pub filtered : Option String → String → String
filtered none raw = raw
filtered (some filter) raw =
    if filter == "trim" then trim raw else if filter == "words" then squeeze raw else raw

unfoldable pub looked_up : Result String String → Parsed String
looked_up (ok text) = ok text
looked_up (err message) = err (lookup_failed message)

module _ (template : String) where
  unfoldable pub check_placeholder : ℕ → ℕ → Placeholder → Parsed Found
  check_placeholder start stop placeholder =
      if placeholder.span_id == ""
      then err (empty_placeholder template)
      else check_filter placeholder.filter >>= λ _.
          ok (record { start = start; stop = stop; placeholder = placeholder })

  -- The rest of a round, once a placeholder opens.
  unfoldable pub placeholder_at : ℕ → Parsed Found
  placeholder_at open_at = elim (find_doubled b'}' (drop_chars (open_at + 2) template)) [
    | none ↦ err (unterminated template)
    | some rel ↦
        check_placeholder open_at (open_at + 2 + rel + 2)
          (split_filter (trim (take_chars rel (drop_chars (open_at + 2) template))))
  ]

  -- One round of the loop: the placeholder that it finds, if any.
  unfoldable pub next_placeholder : ℕ → Parsed (Option Found)
  next_placeholder cursor = elim (find_doubled b'{' (drop_chars cursor template)) [
    | none ↦ ok none
    | some open_rel ↦ map_ok some (placeholder_at (cursor + open_rel))
  ]

  -- The loop, with a bound on its rounds: `none` when they run out.
  unfoldable pub parse_from : ℕ → ℕ → Option (Parsed (List Found))
  parse_from zero cursor = none
  parse_from (suc fuel) cursor = elim (next_placeholder cursor) [
    | err e ↦ some (err e)
    | ok none ↦ some (ok [])
    | ok (some found) ↦ prepend found (parse_from fuel found.stop)
  ]

  -- A round takes at least four characters, so there are fewer rounds than characters, and one.
  unfoldable pub parse_placeholders : Option (Parsed (List Found))
  parse_placeholders = parse_from (char_count template + 1) 0

  unfoldable pub template_references : Option (Parsed (List String))
  template_references = elim parse_placeholders [
    | none ↦ none
    | some parsed ↦ some (map_ok references parsed)
  ]

  module _ (lookup : String → Result String String) where
    -- The loop over the placeholders, and what follows the last.
    unfoldable pub render_from : ℕ → List Found → Parsed String
    render_from cursor [] = ok (drop_chars cursor template)
    render_from cursor (found ∷ rest) = looked_up (lookup found.placeholder.span_id) >>= λ raw.
        render_from found.stop rest >>= λ after. ok (
          take_chars (found.start - cursor) (drop_chars cursor template)
          ++ filtered found.placeholder.filter raw
          ++ after)

    unfoldable pub render_template : Option (Parsed String)
    render_template = elim parse_placeholders [
      | none ↦ none
      | some parsed ↦ some (parsed >>= render_from 0)
    ]
