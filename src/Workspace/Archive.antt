-- ===== src/Workspace/Archive.antt =====
-- `WorkspaceArchive`: what `capture_with` makes of a directory tree.
use Prim.Native.String.{◌++◌}
use replay_kit.Common.{
  ℕ, suc, zero, ◌+◌, ◌/◌, ◌%◌, ◌^◌, String, Bool, true, false, Option, none, some, List, [], ◌∷◌,
  keep, length, member, push_back, map,
}
use replay_kit.Common.Eq.{Eq, eq_of_discrete, ◌==◌, string_eq, string_lt}
use replay_kit.Common.Result.{ok, err, guard, ◌>>=◌, ◌>>◌}
use replay_kit.Common.Tests.{leb, if◌then◌else◌}
use replay_kit.Storage.Blob.{Bytes, Env}
use replay_kit.Storage.Error.{
  Checked, invalid_input, internal, not_a_directory, unreadable_path, not_in_utf8, too_large,
}

pub data EntryKind : Type 0 where
  file dir symlink : EntryKind

unfoldable pub EntryKind-discrete : Discrete EntryKind
EntryKind-discrete = hlevel

abbrev pub entry_kind_eq : Eq EntryKind
entry_kind_eq = eq_of_discrete EntryKind-discrete

pub record WorkspaceEntry : Type 0 where
  pub path : String
  pub kind : EntryKind
  pub mode : ℕ
  pub sha256 : Option String
  pub len : ℕ
  pub offset : ℕ
  pub target : Option String

pub record WorkspaceArchive : Type 0 where
  pub entries : List WorkspaceEntry
  pub data_bytes : Bytes

abbrev pub empty_archive : WorkspaceArchive
empty_archive = record { entries = []; data_bytes = [] }

-- What a path of the file system holds; a special file is a socket, a FIFO or a device, and an
-- unreadable one is any that an operation on fails. The mode has its permission bits only.
mutual
  pub data Node : Type 0 where
    file : ℕ → Bytes → Node
    dir : ℕ → Children → Node
    symlink : String → Node
    special : Node
    unreadable : Node

  -- The entries of a directory. The name of one is no text where it is not in UTF-8.
  pub data Children : Type 0 where
    nil : Children
    child : String → Node → Children → Children
    unnamed : Children → Children

-- `children.sort()`; a name that is not in UTF-8 ends the walk wherever it stands, though which of
-- two errors is returned depends on its place.
unfoldable pub insert_child : String → Node → Children → Children
insert_child name node nil = child name node nil
insert_child name node (unnamed rest) = unnamed (insert_child name node rest)
insert_child name node (child other old rest) =
    if string_lt other name
    then child other old (insert_child name node rest)
    else child name node (child other old rest)

unfoldable mutual
  pub sort_node : Node → Node
  sort_node (dir mode children) = dir mode (sort_children children)
  sort_node (file mode bytes) = file mode bytes
  sort_node (symlink target) = symlink target
  sort_node special = special
  sort_node unreadable = unreadable

  pub sort_children : Children → Children
  sort_children nil = nil
  sort_children (unnamed rest) = unnamed (sort_children rest)
  sort_children (child name node rest) = insert_child name (sort_node node) (sort_children rest)

-- `extend_from_slice`.
abbrev pub append_bytes : Bytes → Bytes → Bytes
append_bytes [] more = more
append_bytes (b ∷ bytes) more = b ∷ append_bytes bytes more

abbrev pub push_entry : WorkspaceEntry → WorkspaceArchive → WorkspaceArchive
push_entry entry a = record a { entries = push_back a.entries entry }

abbrev pub relative : String → String → String
relative prefix name = if prefix == "" then name else prefix ++ "/" ++ name

abbrev pub file_entry : Env → String → ℕ → Bytes → ℕ → WorkspaceEntry
file_entry env rel mode bytes offset = record {
  path = rel;
  kind = EntryKind.file;
  mode = mode;
  sha256 = some (env.sha256_hex bytes);
  len = length bytes;
  offset = offset;
  target = none;
}

abbrev pub dir_entry : String → ℕ → WorkspaceEntry
dir_entry rel mode = record {
  path = rel;
  kind = EntryKind.dir;
  mode = mode;
  sha256 = none;
  len = 0;
  offset = 0;
  target = none;
}

abbrev pub symlink_entry : String → String → WorkspaceEntry
symlink_entry rel target = record {
  path = rel;
  kind = EntryKind.symlink;
  mode = 511;
  sha256 = none;
  len = 0;
  offset = 0;
  target = some target;
}

unfoldable pub push_file :
    Env → ℕ → String → ℕ → Bytes → WorkspaceArchive → Checked WorkspaceArchive
push_file env max_bytes rel mode bytes a = do
  guard (leb (length a.data_bytes + length bytes) max_bytes) (invalid_input (too_large max_bytes))
  let entry = file_entry env rel mode bytes (length a.data_bytes)
  ok (record a {
    entries = push_back a.entries entry;
    data_bytes = append_bytes a.data_bytes bytes;
  })

module _ (env : Env) (exclude : List String) (max_bytes : ℕ) where
  abbrev pub unless_excluded :
      Bool → Checked WorkspaceArchive → WorkspaceArchive → Checked WorkspaceArchive
  unless_excluded true walked a = ok a
  unless_excluded false walked a = walked

  unfoldable mutual
    -- The body of the loop over the children, for one at a full and a relative path.
    pub walk_node : String → String → Node → WorkspaceArchive → Checked WorkspaceArchive
    walk_node full rel (symlink target) a = ok (push_entry (symlink_entry rel target) a)
    walk_node full rel (dir mode children) a =
        walk_children full rel children (push_entry (dir_entry rel mode) a)
    walk_node full rel (file mode bytes) a = push_file env max_bytes rel mode bytes a
    walk_node full rel special a = ok a
    walk_node full rel unreadable a = err (internal (unreadable_path full))

    -- `walk`.
    pub walk_children : String → String → Children → WorkspaceArchive → Checked WorkspaceArchive
    walk_children at prefix nil a = ok a
    walk_children at prefix (unnamed rest) a = err (invalid_input (not_in_utf8 at))
    walk_children at prefix (child name node rest) a =
        let full = at ++ "/" ++ name in
        unless_excluded (member full exclude) (walk_node full (relative prefix name) node a) a
        >>= walk_children at prefix rest

-- `fs::canonicalize`, or the path itself where that fails.
abbrev pub found_or : String → Option String → String
found_or path none = path
found_or path (some canonical) = canonical

abbrev pub canonical : Env → String → String
canonical env path = found_or path (env.canonicalize path)

-- `capture_with`, at what the root leads to.
unfoldable pub capture_with : Env → List String → ℕ → String → Node → Checked WorkspaceArchive
unfolding walk_children sort_children
capture_with env exclude max_bytes root unreadable = err (internal (unreadable_path root))
capture_with env exclude max_bytes root (dir mode children) =
    walk_children env (map (canonical env) exclude) max_bytes (canonical env root) ""
      (sort_children children) empty_archive
capture_with env exclude max_bytes root _ = err (invalid_input (not_a_directory root))

-- The options of a capture.
pub record CaptureOptions : Type 0 where
  pub max_bytes : ℕ
  pub exclude : List String

-- `u64::to_le_bytes`.
unfoldable pub le_bytes : ℕ → ℕ → Bytes
le_bytes zero n = []
le_bytes (suc k) n = n % 256 ∷ le_bytes k (n / 256)

-- "RKWS1" and a line feed.
abbrev pub magic : Bytes
magic = 0x52 ∷ 0x4b ∷ 0x57 ∷ 0x53 ∷ 0x31 ∷ 0x0a ∷ []

-- `to_bytes`, where the text of the manifest is what the `serde_json` package makes of the entries.
unfoldable pub to_bytes : (List WorkspaceEntry → Bytes) → WorkspaceArchive → Bytes
unfolding le_bytes
to_bytes manifest_json a =
    let json = manifest_json a.entries in
    append_bytes magic
      (append_bytes (le_bytes 8 (length json % 2 ^ 64)) (append_bytes json a.data_bytes))

-- `entry`, `slice`, `file_content`, `file_count` and `total_bytes`.
unfoldable pub find_entry : String → List WorkspaceEntry → Option WorkspaceEntry
find_entry path [] = none
find_entry path (entry ∷ entries) =
    if entry.path == path then some entry else find_entry path entries

abbrev pub skip : ℕ → Bytes → Bytes
skip zero bytes = bytes
skip (suc n) [] = []
skip (suc n) (b ∷ bytes) = skip n bytes

abbrev pub first_bytes : ℕ → Bytes → Bytes
first_bytes zero bytes = []
first_bytes (suc n) [] = []
first_bytes (suc n) (b ∷ bytes) = b ∷ first_bytes n bytes

abbrev pub slice : WorkspaceArchive → WorkspaceEntry → Bytes
slice a entry = first_bytes entry.len (skip entry.offset a.data_bytes)

abbrev pub is_file : WorkspaceEntry → Bool
is_file entry = entry_kind_eq.equal entry.kind EntryKind.file

unfoldable pub file_content : WorkspaceArchive → String → Option Bytes
file_content a path = elim (find_entry path a.entries) [
  | none ↦ none
  | some entry ↦ if is_file entry then some (slice a entry) else none
]

abbrev pub file_count : WorkspaceArchive → ℕ
file_count a = length (keep is_file a.entries)

abbrev pub total_bytes : WorkspaceArchive → ℕ
total_bytes a = length a.data_bytes
