-- ===== src/Replay/Sandbox/Inside.antt =====
-- A recorded path that is resolved lies in the sandbox.
use mathlib.Core.Path.{subst}
use replay_kit.Common.{
  String, false, ◌||◌, Option, none, some, List, [], ◌∷◌, ◌≡◌, refl, arith, inl, inr,
}
use replay_kit.Common.Eq.{◌==◌, string_eq}
use replay_kit.Common.Result.{Result, ok, err, ◌>>=◌}
use replay_kit.Common.Tests.{Bool-cases, Option-cases}
use replay_kit.Replay.Sandbox.{
  PathError, ReplayWorkspace, components_of, components, prefix_components, strip_components,
  walk_inside, backwards, join_inside, below_alias, below_canonical, joined_or, resolve_under,
  resolve_absolute, resolve, root_aliases,
}
use replay_kit.Workspace.Files.{split_path, is_absolute, place}
use replay_kit.Workspace.Files.Names.{
  IsName, AllNames, OnePart, has_slash, split_path-OnePart, Inside,
}

-- A component: the root, a name, or the way up.
record IsComponent (part : String) : Type 0 where
  some_text : part == "" ≡ false
  not_here : part == "." ≡ false
  one_part : part == "/" ≡ false → has_slash part ≡ false

abbrev AllComponents : List String → Type 0
AllComponents [] = Unit
AllComponents (p ∷ ps) = IsComponent p × AllComponents ps

components_of-AllComponents :
    (parts : List String) → OnePart parts → AllComponents (components_of parts)
unfolding components_of
components_of-AllComponents [] one = tt
components_of-AllComponents (part ∷ parts) one = elim (Bool-cases (part == "" || part == ".")) [
  | inl t ↦ rw (components_of, t) (components_of-AllComponents parts one.1)
  | inr f ↦
      rw (components_of, f)
        (
          record {
            some_text = ground (arith, f);
            not_here = ground (arith, f);
            one_part = λ _. one.0;
          },
          components_of-AllComponents parts one.1,
        )
]

components-AllComponents : (path : String) → AllComponents (components path)
unfolding components
components-AllComponents path = elim (Bool-cases (is_absolute path)) [
  | inl t ↦ rw (components, t) (root, relative)
  | inr f ↦ rw (components, f) relative
]
  where
    root : IsComponent "/"
    root = record { some_text = refl; not_here = refl; one_part = λ f. cc f }

    relative : AllComponents (components_of (split_path path))
    relative = components_of-AllComponents (split_path path) (split_path-OnePart path)

strip-AllComponents :
    (front parts : List String) {rest : List String}
    → AllComponents parts
    → strip_components front parts ≡ some rest
    → AllComponents rest
unfolding strip_components
strip-AllComponents [] parts {rest} all h =
    let e : parts ≡ rest = ground arith in subst AllComponents e all
strip-AllComponents (a ∷ front) [] all h = cc
strip-AllComponents (a ∷ front) (b ∷ parts) all h = elim (Bool-cases (a == b)) [
  | inl t ↦ strip-AllComponents front parts all.1 (rw (strip_components, t) at h)
  | inr f ↦ cc (rw (strip_components, f) at h)
]

name_of :
    (part : String) → part == "/" ≡ false → part == ".." ≡ false → IsComponent part → IsName part
name_of part plain f c = record {
  some_text = c.some_text;
  not_here = c.not_here;
  not_above = f;
  one_part = c.one_part plain;
}

walk_inside-AllNames :
    (original : String) (out rest : List String) {found : List String}
    → AllNames out
    → AllComponents rest
    → walk_inside original out rest ≡ ok found
    → AllNames found
unfolding walk_inside
walk_inside-AllNames original out [] {found} names all h =
    let e : out ≡ found = ground arith in subst AllNames e names
walk_inside-AllNames original [] (part ∷ rest) names all h = elim (Bool-cases (part == "/")) [
  | inl t ↦ cc (rw (walk_inside, t) at h)
  | inr plain ↦ elim (Bool-cases (part == "..")) [
    | inl t ↦ cc (rw (walk_inside, plain, t) at h)
    | inr f ↦
        walk_inside-AllNames original (part ∷ []) rest (name_of part plain f all.0, tt) all.1
          (rw (walk_inside, plain, f) at h)
  ]
]
walk_inside-AllNames original (last ∷ before) (part ∷ rest) names all h =
    elim (Bool-cases (part == "/")) [
      | inl t ↦ cc (rw (walk_inside, t) at h)
      | inr plain ↦ elim (Bool-cases (part == "..")) [
        | inl t ↦
            walk_inside-AllNames original before rest names.1 all.1
              (rw (walk_inside, plain, t) at h)
        | inr f ↦
            walk_inside-AllNames original (part ∷ last ∷ before) rest
              (name_of part plain f all.0, names) all.1 (rw (walk_inside, plain, f) at h)
      ]
    ]

backwards-AllNames :
    (acc parts : List String) → AllNames acc → AllNames parts → AllNames (backwards acc parts)
unfolding backwards
backwards-AllNames acc [] a p = a
backwards-AllNames acc (x ∷ parts) a p = backwards-AllNames (x ∷ acc) parts (p.0, a) p.1

join_inside-Inside :
    (sandbox : String) (rest : List String) (original path : String)
    → AllComponents rest
    → join_inside sandbox rest original ≡ ok path
    → Inside sandbox path
unfolding join_inside
join_inside-Inside sandbox rest original path all h =
    walked (walk_inside original [] rest) (λ out e. walk_inside-AllNames original [] rest tt all e)
      h
  where
    walked :
        (r : Result PathError (List String))
        → ((out : List String) → r ≡ ok out → AllNames out)
        → r >>= (λ out. ok (place sandbox (backwards [] out))) ≡ ok path
        → Inside sandbox path
    walked (err e) names q = cc
    walked (ok out) names q =
        (backwards [] out, backwards-AllNames [] out tt (names out refl), ground (arith, q))

below_alias-AllComponents :
    (aliases : List String) (path : String) {rest : List String}
    → below_alias aliases path ≡ some rest
    → AllComponents rest
unfolding below_alias
below_alias-AllComponents [] path h = cc
below_alias-AllComponents (alias ∷ aliases) path {rest} h =
    elim (Option-cases (strip_components (prefix_components alias) (components path))) [
      | inl e ↦ below_alias-AllComponents aliases path (rw (below_alias, e) at h)
      | inr (r, e) ↦
          let same : r ≡ rest = ground (arith, (rw (below_alias, e) at h)) in
          subst AllComponents same (
            strip-AllComponents (prefix_components alias) (components path)
              (components-AllComponents path) e)
    ]

joined_or-Inside :
    (canonicalize : String → Option String) (found : Option (List String))
    (sandbox original path : String) (other : Result PathError String)
    → ((rest : List String) → found ≡ some rest → AllComponents rest)
    → (other ≡ ok path → Inside sandbox path)
    → joined_or canonicalize found sandbox original other ≡ ok path
    → Inside sandbox path
joined_or-Inside canonicalize none sandbox original path other all o h = o h
joined_or-Inside canonicalize (some rest) sandbox original path other all o h =
    join_inside-Inside sandbox rest original path (all rest refl) h

below_canonical-AllComponents :
    (canonicalize : String → Option String) (aliases : List String) (canonical : Option String)
    {rest : List String}
    → below_canonical canonicalize aliases canonical ≡ some rest
    → AllComponents rest
below_canonical-AllComponents canonicalize aliases none h = cc
below_canonical-AllComponents canonicalize aliases (some path) h =
    below_alias-AllComponents aliases path h

resolve_under-Inside :
    (canonicalize : String → Option String) (sandbox root original path : String)
    → resolve_under canonicalize sandbox root original ≡ ok path
    → Inside sandbox path
unfolding resolve_under
resolve_under-Inside canonicalize sandbox root original path h =
    let aliases = root_aliases root in
    joined_or-Inside canonicalize (below_alias aliases original) sandbox original path _
      (λ rest e. below_alias-AllComponents aliases original e)
      (joined_or-Inside canonicalize (below_canonical canonicalize aliases (canonicalize original))
        sandbox original path _
        (λ rest e. below_canonical-AllComponents canonicalize aliases (canonicalize original) e)
        (λ q. cc))
      h

-- Where `resolve` maps a recorded path to, whatever the path, the recorded root and the host's
-- `canonicalize`: to the sandbox, or to a path of names below it, none of which is `..`.
pub resolve-Inside :
    (canonicalize : String → Option String) (ws : ReplayWorkspace) (original path : String)
    → resolve canonicalize ws original ≡ ok path
    → Inside ws.sandbox path
unfolding resolve
resolve-Inside canonicalize ws original path h = elim (Bool-cases (is_absolute original)) [
  | inl t ↦ absolute ws.recorded_root (rw (resolve, t) at h)
  | inr f ↦
      join_inside-Inside ws.sandbox (components original) original path
        (components-AllComponents original) (rw (resolve, f) at h)
]
  where
    absolute :
        (root : Option String)
        → resolve_absolute canonicalize ws.sandbox root original ≡ ok path
        → Inside ws.sandbox path
    absolute none q = cc
    absolute (some root) q = resolve_under-Inside canonicalize ws.sandbox root original path q
