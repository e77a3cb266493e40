-- ===== src/Workspace/Restore.antt =====
-- `restore`, `write_entry`, `changes_to` and `apply_transition` of `WorkspaceArchive`.
pub mod Changes
pub mod Ordered
pub mod Confined
use replay_kit.Common.{
  String, Bool, true, false, ◌&&◌, ◌||◌, Option, none, some, List, [], ◌∷◌, ◌++◌, keep,
}
use replay_kit.Common.Action.{fail, pure, lift, ◌>>=◌, ◌>>◌}
use replay_kit.Common.Eq.{◌==◌, string_eq, string_ord, string_lt, option_eq, nat_eq, negate}
use replay_kit.Common.Map.{Map, get, insert, is_some, values, contains_key}
use replay_kit.Common.Tests.{if◌then◌else◌}
use replay_kit.Storage.Error.{invalid_input, internal, io_failed, target_not_empty}
use replay_kit.Workspace.Archive.{
  WorkspaceArchive, WorkspaceEntry, EntryKind, entry_kind_eq, slice, find_entry, is_file,
}
use replay_kit.Workspace.Files.{
  Files, FileAction, calling, when_so, remove_path, safe_relative, place, parent_parts,
}

pub data ChangeKind : Type 0 where
  added modified removed : ChangeKind

pub record WorkspaceChange : Type 0 where
  pub path : String
  pub kind : ChangeKind
  pub entry_kind : EntryKind

abbrev pub is_dir_entry : WorkspaceEntry → Bool
is_dir_entry entry = entry_kind_eq.equal entry.kind EntryKind.dir

unfoldable pub same_content : WorkspaceEntry → WorkspaceEntry → Bool
same_content a b =
    entry_kind_eq.equal a.kind b.kind
    && a.mode == b.mode
    && a.sha256 == b.sha256
    && a.target == b.target

-- The entries by their paths: `collect` into a `BTreeMap`.
unfoldable pub entries_from :
    Map String WorkspaceEntry → List WorkspaceEntry → Map String WorkspaceEntry
entries_from acc [] = acc
entries_from acc (entry ∷ entries) = entries_from (insert entry.path entry acc) entries

unfoldable pub by_path : WorkspaceArchive → Map String WorkspaceEntry
by_path a = entries_from [] a.entries

abbrev pub changed_entry : String → WorkspaceEntry → Option WorkspaceEntry → List WorkspaceChange
changed_entry path entry none =
    record { path = path; kind = ChangeKind.added; entry_kind = entry.kind } ∷ []
changed_entry path entry (some old) =
    if same_content old entry
    then []
    else record { path = path; kind = ChangeKind.modified; entry_kind = entry.kind } ∷ []

-- The loop over the later entries, and the one over the earlier.
unfoldable pub written_changes :
    Map String WorkspaceEntry → Map String WorkspaceEntry → List WorkspaceChange
written_changes before [] = []
written_changes before ((path, entry) ∷ after) =
    changed_entry path entry (get path before) ++ written_changes before after

abbrev pub removed_entry : String → WorkspaceEntry → Bool → List WorkspaceChange
removed_entry path entry true = []
removed_entry path entry false =
    record { path = path; kind = ChangeKind.removed; entry_kind = entry.kind } ∷ []

unfoldable pub removed_changes :
    Map String WorkspaceEntry → Map String WorkspaceEntry → List WorkspaceChange
removed_changes after [] = []
removed_changes after ((path, entry) ∷ before) =
    removed_entry path entry (contains_key path after) ++ removed_changes after before

-- `sort_by` the path, which is stable.
unfoldable pub insert_change : WorkspaceChange → List WorkspaceChange → List WorkspaceChange
insert_change change [] = change ∷ []
insert_change change (other ∷ rest) =
    if string_lt other.path change.path
    then other ∷ insert_change change rest
    else change ∷ other ∷ rest

unfoldable pub sort_changes : List WorkspaceChange → List WorkspaceChange
sort_changes [] = []
sort_changes (change ∷ rest) = insert_change change (sort_changes rest)

unfoldable pub changes_to : WorkspaceArchive → WorkspaceArchive → List WorkspaceChange
changes_to earlier later =
    let before = by_path earlier in
    let after = by_path later in
    sort_changes (written_changes before after ++ removed_changes after before)

unfoldable pub reversed {ℓ} : {A : Type ℓ} → List A → List A
reversed [] = []
reversed (x ∷ xs) = reversed xs ++ x ∷ []

module _ {W : Type 0} (files : Files W) (dest : String) where
  abbrev pub occupied : String → W → Bool
  occupied path w = is_some (files.lstat_is_dir path w)

  unfoldable pub write_dir : List String → FileAction W (Unit {0})
  write_dir parts = do
    let path = place dest parts
    when_so (λ w. files.is_file path w || files.is_symlink path w) (remove_path files path)
    calling (files.create_dir_all path) "create" path

  unfoldable pub create_parent : List String → FileAction W (Unit {0})
  create_parent parts =
      let parent = place dest (parent_parts parts) in
      calling (files.create_dir_all parent) "create" parent

  unfoldable pub write_regular :
      WorkspaceArchive → WorkspaceEntry → List String → FileAction W (Unit {0})
  write_regular a entry parts = do
    let path = place dest parts
    create_parent parts
    when_so (λ w. files.is_dir path w || files.is_symlink path w) (remove_path files path)
    calling (files.write_file path (slice a entry)) "write" path
    calling (files.set_mode path entry.mode) "set permissions on" path

  abbrev pub target_of : Option String → String
  target_of none = ""
  target_of (some target) = target

  unfoldable pub write_symlink : WorkspaceEntry → List String → FileAction W (Unit {0})
  write_symlink entry parts = do
    let path = place dest parts
    create_parent parts
    when_so (occupied path) (remove_path files path)
    calling (files.make_symlink (target_of entry.target) path) "create symlink" path

  abbrev pub write_kind :
      WorkspaceArchive → WorkspaceEntry → List String → EntryKind → FileAction W (Unit {0})
  write_kind a entry parts EntryKind.dir = write_dir parts
  write_kind a entry parts EntryKind.file = write_regular a entry parts
  write_kind a entry parts EntryKind.symlink = write_symlink entry parts

  unfoldable pub write_entry : WorkspaceArchive → WorkspaceEntry → FileAction W (Unit {0})
  write_entry a entry =
      lift (safe_relative entry.path) >>= λ parts. write_kind a entry parts entry.kind

  unfoldable pub write_entries : WorkspaceArchive → List WorkspaceEntry → FileAction W (Unit {0})
  write_entries a [] = pure tt
  write_entries a (entry ∷ entries) = write_entry a entry >> write_entries a entries

  unfoldable pub set_entry_mode : WorkspaceEntry → FileAction W (Unit {0})
  set_entry_mode entry = lift (safe_relative entry.path) >>= λ parts.
      calling (files.set_mode (place dest parts) entry.mode) "set permissions on" (place dest parts)

  unfoldable pub set_modes : List WorkspaceEntry → FileAction W (Unit {0})
  set_modes [] = pure tt
  set_modes (entry ∷ entries) = set_entry_mode entry >> set_modes entries

  abbrev pub check_empty_as : Option Bool → FileAction W (Unit {0})
  check_empty_as none = fail (internal (io_failed "read" dest))
  check_empty_as (some true) = fail (invalid_input (target_not_empty dest))
  check_empty_as (some false) = pure tt

  abbrev pub check_empty : FileAction W (Unit {0})
  check_empty w = check_empty_as (files.read_dir_any dest w) w

  unfoldable pub restore : WorkspaceArchive → FileAction W (Unit {0})
  restore a = do
    when_so (files.exists dest) check_empty
    calling (files.create_dir_all dest) "create" dest
    write_entries a a.entries
    set_modes (reversed (keep is_dir_entry a.entries))

  -- The removals of a transition, deepest first, and then its writes.
  abbrev pub remove_change : WorkspaceChange → ChangeKind → FileAction W (Unit {0})
  remove_change change ChangeKind.removed = lift (safe_relative change.path) >>= λ parts.
      when_so (occupied (place dest parts)) (remove_path files (place dest parts))
  remove_change change _ = pure tt

  unfoldable pub remove_changes : List WorkspaceChange → FileAction W (Unit {0})
  remove_changes [] = pure tt
  remove_changes (change ∷ changes) = remove_change change change.kind >> remove_changes changes

  abbrev pub set_dir_mode : Bool → WorkspaceEntry → FileAction W (Unit {0})
  set_dir_mode true entry = set_entry_mode entry
  set_dir_mode false entry = pure tt

  abbrev pub write_found : WorkspaceArchive → Option WorkspaceEntry → FileAction W (Unit {0})
  write_found later none = pure tt
  write_found later (some entry) =
      write_entry later entry >> set_dir_mode (is_dir_entry entry) entry

  abbrev pub write_change :
      WorkspaceArchive → WorkspaceChange → ChangeKind → FileAction W (Unit {0})
  write_change later change ChangeKind.removed = pure tt
  write_change later change _ = write_found later (find_entry change.path later.entries)

  unfoldable pub write_changes : WorkspaceArchive → List WorkspaceChange → FileAction W (Unit {0})
  write_changes later [] = pure tt
  write_changes later (change ∷ changes) =
      write_change later change change.kind >> write_changes later changes

  unfoldable pub apply_transition :
      WorkspaceArchive → WorkspaceArchive → FileAction W (List WorkspaceChange)
  apply_transition earlier later = do
    let changes = changes_to earlier later
    remove_changes (reversed changes)
    write_changes later changes
    pure changes
