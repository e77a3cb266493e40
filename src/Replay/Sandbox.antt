-- ===== src/Replay/Sandbox.antt =====
-- `ReplayWorkspace` of crates/replay-engine/src/sandbox.rs: where a recorded path leads in the sandbox
-- of a replay. A path is cut at its slashes into its components, as `std::path` does on Unix.
pub mod Inside
use Prim.Native.String.{◌++◌}
use text.Mathlib.Text.{starts_with}
use replay_kit.Common.{
  String, Bool, true, false, ◌||◌, Option, none, some, List, [], ◌∷◌, ◌++◌ as ◌+++◌, ◌≡◌, refl, inl,
  inr, arith,
}
use replay_kit.Common.Eq.{◌==◌, string_eq}
use replay_kit.Common.Result.{Result, ok, err, ◌>>=◌}
use replay_kit.Common.Tests.{Bool-cases, Option-cases, if◌then◌else◌}
use replay_kit.Common.Text.{drop_chars}
use replay_kit.Workspace.Files.{split_path, is_absolute, place}

pub data PathError : Type 0 where
  escapes_sandbox no_workspace : String → PathError
  outside_workspace : String → String → PathError

pub record ReplayWorkspace : Type 0 where
  pub sandbox : String
  pub recorded_root : Option String

-- `components` of a relative path, without the current directory.
abbrev pub add_component : String → List String → List String
add_component part rest = if part == "" || part == "." then rest else part ∷ rest

unfoldable pub components_of : List String → List String
components_of [] = []
components_of (part ∷ parts) = let rest = components_of parts in add_component part rest

-- With "/" for the root, which is the first component of an absolute path.
unfoldable pub components : String → List String
components path =
    let parts = components_of (split_path path) in if is_absolute path then "/" ∷ parts else parts

abbrev pub leading_dot : List String → Bool
leading_dot [] = false
leading_dot (part ∷ parts) = part == "."

-- The components of a prefix; the current directory is one where it comes first.
unfoldable pub prefix_components : String → List String
prefix_components prefix =
    let parts = components prefix in if leading_dot (split_path prefix) then "." ∷ parts else parts

-- `strip_prefix` of a path, by components.
unfoldable pub strip_components : List String → List String → Option (List String)
strip_components [] rest = some rest
strip_components (a ∷ as_) [] = none
strip_components (a ∷ as_) (b ∷ bs) = elim (a == b) [
  | true ↦ strip_components as_ bs
  | false ↦ none
]

unfoldable pub root_aliases : String → List String
root_aliases root =
    if starts_with root "/private/"
    then root ∷ ("/" ++ drop_chars 9 root) ∷ []
    else if starts_with root "/tmp/" || starts_with root "/var/"
    then root ∷ ("/private" ++ root) ∷ []
    else root ∷ []

-- The components that were pushed and not popped, the last first.
unfoldable pub walk_inside : String → List String → List String → Result PathError (List String)
walk_inside original out [] = ok out
walk_inside original out (part ∷ rest) = elim (part == "/") [
  | true ↦ err (escapes_sandbox original)
  | false ↦ elim (part == "..") [
    | false ↦ walk_inside original (part ∷ out) rest
    | true ↦ elim out [
      | [] ↦ err (escapes_sandbox original)
      | last ∷ before ↦ walk_inside original before rest
    ]
  ]
]

unfoldable pub backwards : List String → List String → List String
backwards acc [] = acc
backwards acc (x ∷ xs) = backwards (x ∷ acc) xs

unfoldable pub join_inside : String → List String → String → Result PathError String
join_inside sandbox rest original =
    walk_inside original [] rest >>= λ out. ok (place sandbox (backwards [] out))

-- The first alias of the root that the path lies under, and where below it.
unfoldable pub below_alias : List String → String → Option (List String)
below_alias [] path = none
below_alias (alias ∷ aliases) path =
    elim (strip_components (prefix_components alias) (components path)) [
      | some rest ↦ some rest
      | none ↦ below_alias aliases path
    ]

-- `canonicalize` is the host's.
module _ (canonicalize : String → Option String) where
  abbrev pub below_canonical : List String → Option String → Option (List String)
  below_canonical aliases none = none
  below_canonical aliases (some canonical) = below_alias aliases canonical

  abbrev pub joined_or :
      Option (List String) → String → String → Result PathError String → Result PathError String
  joined_or none sandbox path other = other
  joined_or (some rest) sandbox path other = join_inside sandbox rest path

  unfoldable pub resolve_under : String → String → String → Result PathError String
  resolve_under sandbox root path =
      let aliases = root_aliases root in
      joined_or (below_alias aliases path) sandbox path (
        joined_or (below_canonical aliases (canonicalize path)) sandbox path
          (err (outside_workspace path root)))

  abbrev pub resolve_absolute : String → Option String → String → Result PathError String
  resolve_absolute sandbox none path = err (no_workspace path)
  resolve_absolute sandbox (some root) path = resolve_under sandbox root path

  unfoldable pub resolve : ReplayWorkspace → String → Result PathError String
  resolve ws path =
      if is_absolute path
      then resolve_absolute ws.sandbox ws.recorded_root path
      else join_inside ws.sandbox (components path) path
