-- ===== src/Replay/Template/Rendered.antt =====
-- What a rendered template depends on.
use replay_kit.Common.{
  ℕ, String, Option, none, some, List, [], ◌∷◌, In, ◌≡◌, refl, ap, inl, inr, arith,
}
use replay_kit.Common.Eq.{string_eq}
use replay_kit.Common.Result.{Result, ok, err}
use replay_kit.Replay.Template.{
  Found, Parsed, references, parse_placeholders, template_references, render_from, render_template,
}

module _ (template : String) (first second : String → Result String String) where
  render_from-agree :
      (cursor : ℕ) (found : List Found)
      → ((id : String) → In id (references found) → first id ≡ second id)
      → render_from template first cursor found ≡ render_from template second cursor found
  unfolding render_from
  render_from-agree cursor [] agree = refl
  render_from-agree cursor (f ∷ rest) agree =
      rw
        (
          agree f.placeholder.span_id (inl refl),
          render_from-agree f.stop rest (λ id i. agree id (inr i)),
        )
        refl

  render_parsed :
      (ids : List String) (parsed : Option (Parsed (List Found)))
      → parse_placeholders template ≡ parsed
      → template_references template ≡ some (ok ids)
      → ((id : String) → In id ids → first id ≡ second id)
      → render_template template first ≡ render_template template second
  unfolding template_references render_template
  render_parsed ids none e r agree = rw (render_template, e) refl
  render_parsed ids (some (err x)) e r agree = rw (render_template, e) refl
  render_parsed ids (some (ok found)) e r agree =
      let same : references found ≡ ids = ground (arith, e, r) in
      rw (render_template, e) (ap some (render_from-agree 0 found (rw (← same) at agree)))

  -- A template renders to the same with two lookups that agree on the spans that
  -- `template_references` names.
  pub render_template-references :
      (ids : List String)
      → template_references template ≡ some (ok ids)
      → ((id : String) → In id ids → first id ≡ second id)
      → render_template template first ≡ render_template template second
  render_template-references ids r agree =
      render_parsed ids (parse_placeholders template) refl r agree
