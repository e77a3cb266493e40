-- ===== src/Replay/Template/Bounds.antt =====
-- The search for placeholders ends, and what it finds lies in order within the template.
use mathlib.Core.Path.{subst}
use replay_kit.Common.{
  ℕ, zero, suc, ◌+◌, ◌≤◌, ◌<◌, String, Option, none, some, List, [], ◌∷◌, ◌≡◌, refl, arith, inl,
  inr,
}
use replay_kit.Common.Eq.{string_eq}
use replay_kit.Common.Result.{ok, err}
use replay_kit.Common.Tests.{Option-cases}
use replay_kit.Common.Text.{
  trim, char_count, take_chars, drop_chars, find_doubled, char_count-drop_chars, find_doubled-count,
}
use replay_kit.Replay.Template.{
  Placeholder, Found, Parsed, split_filter, check_placeholder, placeholder_at, next_placeholder,
  prepend, parse_from, parse_placeholders,
}

module _ (template : String) where
  -- A placeholder that lies between a cursor and the end of the template.
  pub record IsNext (cursor : ℕ) (found : Found) : Type 0 where
    pub from : cursor ≤ found.start
    pub braces : found.start + 4 ≤ found.stop
    pub within : found.stop ≤ char_count template

  pub data IsOrdered : ℕ → List Found → Type 0 where
    last : {cursor : ℕ} → cursor ≤ char_count template → IsOrdered cursor []
    before :
        {cursor : ℕ} {found : Found} {rest : List Found}
        → IsNext cursor found
        → IsOrdered found.stop rest
        → IsOrdered cursor (found ∷ rest)

  find-count :
      (b cursor i : ℕ)
      → find_doubled b (drop_chars cursor template) ≡ some i
      → cursor + i + 2 ≤ char_count template
  find-count b cursor i h = omega (
    arith,
    find_doubled-count b i (drop_chars cursor template) h,
    char_count-drop_chars cursor template,
  )

  check-place :
      (start stop : ℕ) (placeholder : Placeholder) (found : Found)
      → check_placeholder template start stop placeholder ≡ ok found
      → (found.start ≡ start) × (found.stop ≡ stop)
  unfolding check_placeholder
  check-place start stop placeholder found h = ground arith

  placeholder_at-place :
      (open_at : ℕ) (found : Found)
      → placeholder_at template open_at ≡ ok found
      → (found.start ≡ open_at) × (open_at + 4 ≤ found.stop) × (found.stop ≤ char_count template)
  unfolding placeholder_at
  placeholder_at-place open_at found h =
      elim (Option-cases (find_doubled b'}' (drop_chars (open_at + 2) template))) [
        | inl e ↦ cc (rw (placeholder_at, e) at h)
        | inr (rel, e) ↦
            let inner = split_filter (trim (take_chars rel (drop_chars (open_at + 2) template))) in
            let (at_start, at_stop) =
              check-place open_at (open_at + 2 + rel + 2) inner found
                (rw (placeholder_at, e) at h) in
            let bound = find-count b'}' (open_at + 2) rel e in
            (at_start, omega (arith, at_stop), omega (arith, at_stop, bound))
      ]

  next_placeholder-IsNext :
      (cursor : ℕ) (found : Found)
      → next_placeholder template cursor ≡ ok (some found)
      → IsNext cursor found
  unfolding next_placeholder
  next_placeholder-IsNext cursor found h =
      elim (Option-cases (find_doubled b'{' (drop_chars cursor template))) [
        | inl e ↦ cc (rw (next_placeholder, e) at h)
        | inr (rel, e) ↦
            let (at_start, braces, within) =
              placeholder_at-place (cursor + rel) found (ground (arith, e, h)) in
            record {
              from = omega (arith, at_start);
              braces = omega (arith, at_start, braces);
              within = within;
            }
      ]

  -- The loop ends with a result, and what it found, if it found no error, is in order.
  EndsAt : ℕ → Option (Parsed (List Found)) → Type 0
  EndsAt cursor outcome =
      (parsed : Parsed (List Found)) × (outcome ≡ some parsed)
      × ((found : List Found) → parsed ≡ ok found → IsOrdered cursor found)

  prepend-EndsAt :
      (cursor : ℕ) (first : Found) (outcome : Option (Parsed (List Found)))
      → IsNext cursor first
      → EndsAt first.stop outcome
      → EndsAt cursor (prepend first outcome)
  unfolding EndsAt
  prepend-EndsAt cursor first none next (parsed, e, ordered) = cc
  prepend-EndsAt cursor first (some (err e)) next ends = (err e, refl, λ found h. cc)
  prepend-EndsAt cursor first (some (ok rest)) next (parsed, e, ordered) = (
    ok (first ∷ rest),
    refl,
    λ found h.
        let same : first ∷ rest ≡ found = ground arith in
        subst (IsOrdered cursor) same (before next (ordered rest (ground (arith, e)))),
  )

  module _ (fuel cursor : ℕ) (inside : cursor ≤ char_count template)
      (go_on : (found : Found)
        → IsNext cursor found
        → EndsAt found.stop (parse_from template fuel found.stop)) where
    round-EndsAt :
        (round : Parsed (Option Found))
        → next_placeholder template cursor ≡ round
        → EndsAt cursor (parse_from template (suc fuel) cursor)
    unfolding parse_from EndsAt
    round-EndsAt (err e) h = (err e, rw (parse_from, h) refl, λ found h. cc)
    round-EndsAt (ok none) h = (
      ok [],
      rw (parse_from, h) refl,
      λ found same. let e : [] ≡ found = ground arith in subst (IsOrdered cursor) e (last inside),
    )
    round-EndsAt (ok (some found)) h =
        let next = next_placeholder-IsNext cursor found h in
        rw (parse_from, h)
          (prepend-EndsAt cursor found (parse_from template fuel found.stop) next
            (go_on found next))

  parse_from-EndsAt :
      (fuel cursor : ℕ)
      → cursor ≤ char_count template
      → char_count template < fuel + cursor
      → EndsAt cursor (parse_from template fuel cursor)
  parse_from-EndsAt zero cursor inside enough = absurd (omega arith)
  parse_from-EndsAt (suc fuel) cursor inside enough =
      round-EndsAt fuel cursor inside
        (λ found next.
          parse_from-EndsAt fuel found.stop next.within (omega (arith, next.from, next.braces)))
        (next_placeholder template cursor) refl

  -- The search of a template for placeholders ends, with an error or with the placeholders in their
  -- order: each starts where the one before it stopped or later, has its four braces, and stops
  -- within the template, so that every cut of the template is within its bounds.
  pub parse_placeholders-IsOrdered :
      (parsed : Parsed (List Found)) × (parse_placeholders template ≡ some parsed)
      × ((found : List Found) → parsed ≡ ok found → IsOrdered 0 found)
  unfolding parse_placeholders EndsAt
  parse_placeholders-IsOrdered =
      parse_from-EndsAt (char_count template + 1) 0 (omega arith) (omega arith)
