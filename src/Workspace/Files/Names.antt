-- ===== src/Workspace/Files/Names.antt =====
-- The paths that `safe_relative` accepts are paths of names.
use Prim.Native.Char.{Char, code}
use mathlib.Core.Path.{subst}
use replay_kit.Common.{String, Bool, false, ◌||◌, List, [], ◌∷◌, ◌≡◌, refl, arith, inl, inr}
use replay_kit.Common.Eq.{◌==◌, string_eq}
use replay_kit.Common.Result.{ok, err, map_ok}
use replay_kit.Storage.Error.{Checked}
use replay_kit.Common.Tests.{nat_beq, Bool-cases}
use replay_kit.Workspace.Files.{
  split_path, push_part, safe_parts, safe_relative, not_empty, is_absolute, place, parent_parts,
}

unfoldable pub has_slash : String → Bool
has_slash String.[] = false
has_slash (String.◌∷◌ c s) = nat_beq (code c) b'/' || has_slash s

-- The name of an entry of a directory: it leads nowhere else.
pub record IsName (part : String) : Type 0 where
  pub some_text : part == "" ≡ false
  pub not_here : part == "." ≡ false
  pub not_above : part == ".." ≡ false
  pub one_part : has_slash part ≡ false

abbrev pub AllNames : List String → Type 0
AllNames [] = Unit
AllNames (p ∷ ps) = IsName p × AllNames ps

abbrev pub OnePart : List String → Type 0
OnePart [] = Unit
OnePart (p ∷ ps) = (has_slash p ≡ false) × OnePart ps

push_part-OnePart :
    (c : Char) (ps : List String)
    → nat_beq (code c) b'/' ≡ false
    → OnePart ps
    → OnePart (push_part c ps)
unfolding has_slash
push_part-OnePart c [] h o = (rw h refl, tt)
push_part-OnePart c (p ∷ ps) h o = (rw h o.0, o.1)

pub split_path-OnePart : (s : String) → OnePart (split_path s)
unfolding split_path has_slash
split_path-OnePart String.[] = (refl, tt)
split_path-OnePart (String.◌∷◌ c s) = elim (Bool-cases (nat_beq (code c) b'/')) [
  | inl t ↦ rw (split_path, t) (refl, split_path-OnePart s)
  | inr f ↦ rw (split_path, f) (push_part-OnePart c (split_path s) f (split_path-OnePart s))
]

safe_parts-AllNames :
    (path : String) (given : List String) {parts : List String}
    → OnePart given
    → safe_parts path given ≡ ok parts
    → AllNames parts
unfolding safe_parts
safe_parts-AllNames path [] {parts} one h = let e : [] ≡ parts = ground arith in subst AllNames e tt
safe_parts-AllNames path (part ∷ given) {parts} one h = elim (Bool-cases (part == "..")) [
  | inl t ↦ cc (rw (safe_parts, t) at h)
  | inr above ↦ elim (Bool-cases (part == "" || part == ".")) [
    | inl t ↦ safe_parts-AllNames path given one.1 (rw (safe_parts, above, t) at h)
    | inr f ↦
        kept part (safe_parts path given) f above one.0
          (λ rest e. safe_parts-AllNames path given one.1 e) (rw (safe_parts, above, f) at h)
  ]
]
  where
    kept :
        (part : String) (found : Checked (List String)) {parts : List String}
        → (part == "" || part == ".") ≡ false
        → part == ".." ≡ false
        → has_slash part ≡ false
        → ((rest : List String) → found ≡ ok rest → AllNames rest)
        → map_ok (λ l. part ∷ l) found ≡ ok parts
        → AllNames parts
    kept part (err e) f above one all h = cc
    kept part (ok rest) {parts} f above one all h =
        let e : part ∷ rest ≡ parts = ground arith in
        subst AllNames e (
          record {
            some_text = ground (arith, f);
            not_here = ground (arith, f);
            not_above = above;
            one_part = one;
          },
          all rest refl,
        )

-- A path that `safe_relative` accepts is one of names, so as it is written it stands below the place
-- that it is joined to.
pub safe_relative-AllNames :
    (path : String) (parts : List String) → safe_relative path ≡ ok parts → AllNames parts
unfolding safe_relative
safe_relative-AllNames path parts h = elim (Bool-cases (is_absolute path)) [
  | inl t ↦ cc (rw (safe_relative, t) at h)
  | inr f ↦
      checked (safe_parts path (split_path path))
        (λ l e. safe_parts-AllNames path (split_path path) (split_path-OnePart path) e)
        (rw (safe_relative, f) at h)
]
  where
    checked :
        (found : Checked (List String)) {parts : List String}
        → ((l : List String) → found ≡ ok l → AllNames l)
        → not_empty found ≡ ok parts
        → AllNames parts
    checked (ok []) all h = cc
    checked (ok (p ∷ ps)) {parts} all h =
        let e : p ∷ ps ≡ parts = ground arith in subst AllNames e (all (p ∷ ps) refl)
    checked (err e) all h = cc

pub parent_parts-AllNames : (parts : List String) → AllNames parts → AllNames (parent_parts parts)
unfolding parent_parts
parent_parts-AllNames [] n = tt
parent_parts-AllNames (p ∷ []) n = tt
parent_parts-AllNames (p ∷ q ∷ ps) n = (n.0, parent_parts-AllNames (q ∷ ps) n.1)

-- The target, or a place below it.
abbrev pub Inside : String → String → Type 0
Inside dest path = (parts : List String) × AllNames parts × (path ≡ place dest parts)
