-- ===== src/Workspace/Restore/Confined.antt =====
-- Restoring an archive, and applying a transition, name no path but the target and those below it.
use replay_kit.Common.{ℕ, String, Bool, true, false, Option, none, some, List, [], ◌∷◌, keep, refl}
use replay_kit.Common.Action.{Keeps, keeps-then, keeps-read, keeps-lift}
use replay_kit.Common.Eq.{string_eq}
use replay_kit.Common.Result.{ok}
use replay_kit.Storage.Error.{Checked}
use replay_kit.Storage.Blob.{Bytes}
use replay_kit.Workspace.Archive.{WorkspaceArchive, WorkspaceEntry, EntryKind}
use replay_kit.Workspace.Files.{
  Files, FileAction, answer, calling, when_so, remove_as, remove_path, safe_relative, place,
  parent_parts,
}
use replay_kit.Workspace.Files.Names.{
  AllNames, Inside, safe_relative-AllNames, parent_parts-AllNames,
}
use replay_kit.Workspace.Restore.{
  WorkspaceChange, ChangeKind, is_dir_entry, write_dir, create_parent, write_regular, write_symlink,
  write_kind, write_entry, write_entries, set_entry_mode, set_modes, check_empty, check_empty_as,
  restore, remove_change, remove_changes, set_dir_mode, write_found, write_change, write_changes,
  apply_transition, changes_to, reversed,
}

-- A property of the file system that calls within the target keep.
pub record Confined {W : Type 0} (files : Files W) (dest : String) (P : W → Type 0) : Type 0 where
  pub create_dir_all :
      (path : String) → Inside dest path → (w : W) → P w → P (files.create_dir_all path w).1
  pub write_file :
      (path : String) (bytes : Bytes)
      → Inside dest path
      → (w : W) → P w
      → P (files.write_file path bytes w).1
  pub set_mode :
      (path : String) (mode : ℕ)
      → Inside dest path
      → (w : W) → P w
      → P (files.set_mode path mode w).1
  pub make_symlink :
      (target path : String)
      → Inside dest path
      → (w : W) → P w
      → P (files.make_symlink target path w).1
  pub remove_dir_all :
      (path : String) → Inside dest path → (w : W) → P w → P (files.remove_dir_all path w).1
  pub remove_file :
      (path : String) → Inside dest path → (w : W) → P w → P (files.remove_file path w).1

module _ {W : Type 0} (P : W → Type 0) where
  calling-Keeps :
      (f : W → Bool × W) (context path : String)
      → ((w : W) → P w → P (f w).1)
      → Keeps P (calling f context path)
  unfolding Keeps
  calling-Keeps f context path keep w p = answered (f w) (keep w p)
    where
      answered : (r : Bool × W) → P r.1 → P (answer r context path).1
      answered (true, v) q = q
      answered (false, v) q = q

  when_so-Keeps :
      (test : W → Bool) (m : FileAction W (Unit {0})) → Keeps P m → Keeps P (when_so test m)
  unfolding Keeps
  when_so-Keeps test m keep w p = chosen (test w)
    where
      chosen :
          (b : Bool)
          → P (elim b as (λ _. Checked (Unit {0}) × W) [ true ↦ m w | false ↦ (ok tt, w) ]).1
      chosen true = keep w p
      chosen false = p

module _ {W : Type 0} (files : Files W) (dest : String) (P : W → Type 0)
    (confined : Confined files dest P) where
  remove_as-Keeps :
      (path : String) (found : Option Bool)
      → Inside dest path
      → Keeps P (remove_as files path found)
  remove_as-Keeps path none inside = keeps-read P _
  remove_as-Keeps path (some true) inside =
      calling-Keeps P _ "remove" path (confined.remove_dir_all path inside)
  remove_as-Keeps path (some false) inside =
      calling-Keeps P _ "remove" path (confined.remove_file path inside)

  remove_path-Keeps : (path : String) → Inside dest path → Keeps P (remove_path files path)
  unfolding remove_path Keeps
  remove_path-Keeps path inside w p = remove_as-Keeps path (files.lstat_is_dir path w) inside w p

  create_dir-Keeps :
      (parts : List String)
      → AllNames parts
      → Keeps P (calling (files.create_dir_all (place dest parts)) "create" (place dest parts))
  create_dir-Keeps parts names =
      calling-Keeps P _ "create" (place dest parts)
        (confined.create_dir_all (place dest parts) (parts, names, refl))

  set_mode-Keeps :
      (parts : List String) (mode : ℕ)
      → AllNames parts
      → Keeps P
          (calling (files.set_mode (place dest parts) mode) "set permissions on" (place dest parts))
  set_mode-Keeps parts mode names =
      calling-Keeps P _ "set permissions on" (place dest parts)
        (confined.set_mode (place dest parts) mode (parts, names, refl))

  remove_when-Keeps :
      (parts : List String) (test : W → Bool)
      → AllNames parts
      → Keeps P (when_so test (remove_path files (place dest parts)))
  remove_when-Keeps parts test names =
      when_so-Keeps P test _ (remove_path-Keeps (place dest parts) (parts, names, refl))

  write_kind-Keeps :
      (a : WorkspaceArchive) (entry : WorkspaceEntry) (parts : List String) (kind : EntryKind)
      → AllNames parts
      → Keeps P (write_kind files dest a entry parts kind)
  unfolding write_dir write_regular write_symlink create_parent
  write_kind-Keeps a entry parts EntryKind.dir names =
      keeps-then P _ _ (remove_when-Keeps parts _ names) (create_dir-Keeps parts names)
  write_kind-Keeps a entry parts EntryKind.file names =
      keeps-then P _ _ (create_dir-Keeps (parent_parts parts) (parent_parts-AllNames parts names)) (
        keeps-then P _ _ (remove_when-Keeps parts _ names) (
          keeps-then P _ _
            (calling-Keeps P _ "write" (place dest parts)
              (confined.write_file (place dest parts) _ (parts, names, refl)))
            (set_mode-Keeps parts entry.mode names)))
  write_kind-Keeps a entry parts EntryKind.symlink names =
      keeps-then P _ _ (create_dir-Keeps (parent_parts parts) (parent_parts-AllNames parts names)) (
        keeps-then P _ _ (remove_when-Keeps parts _ names) (
          calling-Keeps P _ "create symlink" (place dest parts)
            (confined.make_symlink _ (place dest parts) (parts, names, refl))))

  write_entry-Keeps :
      (a : WorkspaceArchive) (entry : WorkspaceEntry) → Keeps P (write_entry files dest a entry)
  unfolding write_entry
  write_entry-Keeps a entry = keeps-lift P (safe_relative entry.path) _ (λ parts safe.
      write_kind-Keeps a entry parts entry.kind (safe_relative-AllNames entry.path parts safe))

  write_entries-Keeps :
      (a : WorkspaceArchive) (entries : List WorkspaceEntry)
      → Keeps P (write_entries files dest a entries)
  unfolding write_entries
  write_entries-Keeps a [] = keeps-read P _
  write_entries-Keeps a (entry ∷ entries) =
      keeps-then P _ _ (write_entry-Keeps a entry) (write_entries-Keeps a entries)

  set_entry_mode-Keeps : (entry : WorkspaceEntry) → Keeps P (set_entry_mode files dest entry)
  unfolding set_entry_mode
  set_entry_mode-Keeps entry =
      keeps-lift P (safe_relative entry.path) _ (λ parts safe.
        set_mode-Keeps parts entry.mode (safe_relative-AllNames entry.path parts safe))

  set_modes-Keeps : (entries : List WorkspaceEntry) → Keeps P (set_modes files dest entries)
  unfolding set_modes
  set_modes-Keeps [] = keeps-read P _
  set_modes-Keeps (entry ∷ entries) =
      keeps-then P _ _ (set_entry_mode-Keeps entry) (set_modes-Keeps entries)

  check_empty_as-Keeps : (found : Option Bool) → Keeps P (check_empty_as files dest found)
  check_empty_as-Keeps none = keeps-read P _
  check_empty_as-Keeps (some true) = keeps-read P _
  check_empty_as-Keeps (some false) = keeps-read P _

  check_empty-Keeps : Keeps P (check_empty files dest)
  unfolding Keeps
  check_empty-Keeps w p = check_empty_as-Keeps (files.read_dir_any dest w) w p

  restore-Keeps : (a : WorkspaceArchive) → Keeps P (restore files dest a)
  unfolding restore place
  restore-Keeps a = keeps-then P _ _ (when_so-Keeps P _ _ check_empty-Keeps) (
      keeps-then P _ _
        (calling-Keeps P _ "create" dest (confined.create_dir_all dest ([], tt, refl)))
        (keeps-then P _ _ (write_entries-Keeps a a.entries)
          (set_modes-Keeps (reversed (keep is_dir_entry a.entries)))))

  remove_change-Keeps :
      (change : WorkspaceChange) (kind : ChangeKind)
      → Keeps P (remove_change files dest change kind)
  remove_change-Keeps change ChangeKind.removed =
      keeps-lift P (safe_relative change.path) _
        (λ parts safe. remove_when-Keeps parts _ (safe_relative-AllNames change.path parts safe))
  remove_change-Keeps change ChangeKind.added = keeps-read P _
  remove_change-Keeps change ChangeKind.modified = keeps-read P _

  remove_changes-Keeps :
      (changes : List WorkspaceChange) → Keeps P (remove_changes files dest changes)
  unfolding remove_changes
  remove_changes-Keeps [] = keeps-read P _
  remove_changes-Keeps (change ∷ changes) =
      keeps-then P _ _ (remove_change-Keeps change change.kind) (remove_changes-Keeps changes)

  write_found-Keeps :
      (later : WorkspaceArchive) (found : Option WorkspaceEntry)
      → Keeps P (write_found files dest later found)
  write_found-Keeps later none = keeps-read P _
  write_found-Keeps later (some entry) =
      keeps-then P _ _ (write_entry-Keeps later entry) (dir_mode (is_dir_entry entry))
    where
      dir_mode : (b : Bool) → Keeps P (set_dir_mode files dest b entry)
      dir_mode true = set_entry_mode-Keeps entry
      dir_mode false = keeps-read P _

  write_change-Keeps :
      (later : WorkspaceArchive) (change : WorkspaceChange) (kind : ChangeKind)
      → Keeps P (write_change files dest later change kind)
  write_change-Keeps later change ChangeKind.removed = keeps-read P _
  write_change-Keeps later change ChangeKind.added = write_found-Keeps later _
  write_change-Keeps later change ChangeKind.modified = write_found-Keeps later _

  write_changes-Keeps :
      (later : WorkspaceArchive) (changes : List WorkspaceChange)
      → Keeps P (write_changes files dest later changes)
  unfolding write_changes
  write_changes-Keeps later [] = keeps-read P _
  write_changes-Keeps later (change ∷ changes) =
      keeps-then P _ _ (write_change-Keeps later change change.kind)
        (write_changes-Keeps later changes)

  apply_transition-Keeps :
      (earlier later : WorkspaceArchive) → Keeps P (apply_transition files dest earlier later)
  unfolding apply_transition
  apply_transition-Keeps earlier later =
      keeps-then P _ _ (remove_changes-Keeps (reversed (changes_to earlier later)))
        (keeps-then P _ _ (write_changes-Keeps later (changes_to earlier later)) (keeps-read P _))

-- The states of the file system that calls lead to from a state, each of which names the target or a
-- path of names below it.
pub data Calls {W : Type 0} (files : Files W) (dest : String) (w : W) : W → Type 0 where
  no_call : Calls files dest w w
  create_dir_all :
      (path : String)
      → Inside dest path
      → (v : W) → Calls files dest w v
      → Calls files dest w (files.create_dir_all path v).1
  write_file :
      (path : String) (bytes : Bytes)
      → Inside dest path
      → (v : W) → Calls files dest w v
      → Calls files dest w (files.write_file path bytes v).1
  set_mode :
      (path : String) (mode : ℕ)
      → Inside dest path
      → (v : W) → Calls files dest w v
      → Calls files dest w (files.set_mode path mode v).1
  make_symlink :
      (target path : String)
      → Inside dest path
      → (v : W) → Calls files dest w v
      → Calls files dest w (files.make_symlink target path v).1
  remove_dir_all :
      (path : String)
      → Inside dest path
      → (v : W) → Calls files dest w v
      → Calls files dest w (files.remove_dir_all path v).1
  remove_file :
      (path : String)
      → Inside dest path
      → (v : W) → Calls files dest w v
      → Calls files dest w (files.remove_file path v).1

Calls-Confined :
    {W : Type 0} (files : Files W) (dest : String) (w : W)
    → Confined files dest (Calls files dest w)
Calls-Confined files dest w = record {
  create_dir_all = create_dir_all;
  write_file = write_file;
  set_mode = set_mode;
  make_symlink = make_symlink;
  remove_dir_all = remove_dir_all;
  remove_file = remove_file;
}

-- Whatever the archives hold, and whether the work succeeds or fails: restoring an archive into a
-- directory, and applying a recorded transition to it, change the file system by calls alone that
-- each name the directory or a path of names below it, none of which is empty, `.` or `..` or has a
-- slash. This is about the paths as they are written: where a part of one is a symbolic link, the
-- host follows it.
pub restore-transition-Calls :
    {W : Type 0} (files : Files W) (dest : String) (earlier later : WorkspaceArchive) (w : W)
    → Calls files dest w (restore files dest earlier w).1
      × Calls files dest w (apply_transition files dest earlier later w).1
unfolding Keeps
restore-transition-Calls files dest earlier later w = (
  restore-Keeps files dest (Calls files dest w) (Calls-Confined files dest w) earlier w no_call,
  apply_transition-Keeps files dest (Calls files dest w) (Calls-Confined files dest w) earlier later
      w no_call,
)
