-- ===== src/Workspace/Files.antt =====
-- What crates/storage/src/workspace.rs uses of `std::fs`, and the paths that it lets an archive name.
-- The file system is the host's, so it is a parameter: a type of its states, with the calls.
pub mod Names
use Prim.Native.Char.{Char, code}
use Prim.Native.String.{◌++◌}
use replay_kit.Common.{ℕ, String, Bool, true, false, ◌||◌, Option, none, some, List, [], ◌∷◌}
use replay_kit.Common.Action.{Action, fail}
use replay_kit.Common.Eq.{◌==◌, string_eq}
use replay_kit.Common.Result.{ok, err, map_ok}
use replay_kit.Common.Tests.{nat_beq, if◌then◌else◌}
use replay_kit.Storage.Blob.{Bytes}
use replay_kit.Storage.Error.{
  StorageError, Checked, invalid_input, internal, escapes_workspace, empty_entry_path, io_failed,
}

-- Each call that may fail returns whether it succeeded, with the state after it.
pub record Files (W : Type 0) : Type 0 where
  pub exists : String → W → Bool
  pub is_file : String → W → Bool
  pub is_dir : String → W → Bool
  pub is_symlink : String → W → Bool
  pub read_dir_any : String → W → Option Bool
  pub lstat_is_dir : String → W → Option Bool
  pub create_dir_all : String → W → Bool × W
  pub write_file : String → Bytes → W → Bool × W
  pub set_mode : String → ℕ → W → Bool × W
  pub make_symlink : String → String → W → Bool × W
  pub remove_dir_all : String → W → Bool × W
  pub remove_file : String → W → Bool × W

-- The parts of a path between its slashes.
abbrev pub push_part : Char → List String → List String
push_part c [] = String.◌∷◌ c String.[] ∷ []
push_part c (p ∷ ps) = String.◌∷◌ c p ∷ ps

unfoldable pub split_path : String → List String
split_path String.[] = "" ∷ []
split_path (String.◌∷◌ c s) =
    let rest = split_path s in if nat_beq (code c) b'/' then "" ∷ rest else push_part c rest

unfoldable pub is_absolute : String → Bool
is_absolute String.[] = false
is_absolute (String.◌∷◌ c s) = nat_beq (code c) b'/'

-- `safe_relative`: the components of a path, with no `..` among them.
abbrev pub add_part : String → Checked (List String) → Checked (List String)
add_part part rest = if part == "" || part == "." then rest else map_ok (λ l. part ∷ l) rest

unfoldable pub safe_parts : String → List String → Checked (List String)
safe_parts path [] = ok []
safe_parts path (part ∷ parts) =
    let rest = safe_parts path parts in
    if part == ".." then err (invalid_input (escapes_workspace path)) else add_part part rest

abbrev pub not_empty : Checked (List String) → Checked (List String)
not_empty (ok []) = err (invalid_input empty_entry_path)
not_empty (ok (p ∷ ps)) = ok (p ∷ ps)
not_empty (err e) = err e

unfoldable pub safe_relative : String → Checked (List String)
safe_relative path =
    if is_absolute path
    then err (invalid_input (escapes_workspace path))
    else not_empty (safe_parts path (split_path path))

-- `dest.join(parts)`, and its parent.
unfoldable pub place : String → List String → String
place dest [] = dest
place dest (p ∷ ps) = place (dest ++ "/" ++ p) ps

unfoldable pub parent_parts : List String → List String
parent_parts [] = []
parent_parts (p ∷ []) = []
parent_parts (p ∷ q ∷ ps) = p ∷ parent_parts (q ∷ ps)

abbrev pub FileAction : Type 0 → Type 0 → Type 0
FileAction W = Action W StorageError

module _ {W : Type 0} where
  abbrev pub answer : Bool × W → String → String → Checked (Unit {0}) × W
  answer (true, w) context path = (ok tt, w)
  answer (false, w) context path = (err (internal (io_failed context path)), w)

  -- A call of the file system, with its error as a storage error.
  abbrev pub calling : (W → Bool × W) → String → String → FileAction W (Unit {0})
  calling f context path w = answer (f w) context path

  abbrev pub when_so : (W → Bool) → FileAction W (Unit {0}) → FileAction W (Unit {0})
  when_so test m w = elim (test w) [ true ↦ m w | false ↦ (ok tt, w) ]

  module _ (files : Files W) where
    abbrev pub remove_as : String → Option Bool → FileAction W (Unit {0})
    remove_as path none = fail (internal (io_failed "stat" path))
    remove_as path (some true) = calling (files.remove_dir_all path) "remove" path
    remove_as path (some false) = calling (files.remove_file path) "remove" path

    unfoldable pub remove_path : String → FileAction W (Unit {0})
    remove_path path w = remove_as path (files.lstat_is_dir path w) w
