-- ===== src/Examples/Changing.antt =====
-- The changes between two archives.
use replay_kit.Common.{ℕ, String, none, some, [], ◌∷◌, In, refl}
use replay_kit.Common.Eq.{string_lt}
use replay_kit.Common.Map.{get, insert}
use replay_kit.Workspace.Archive.{WorkspaceArchive, WorkspaceEntry, EntryKind}
use replay_kit.Workspace.Restore.{WorkspaceChange, ChangeKind, changes_to, by_path, entries_from}
use replay_kit.Workspace.Restore.Ordered.{changes_to-Reported}

abbrev file_at : String → ℕ → WorkspaceEntry
file_at path mode = record {
  path = path;
  kind = EntryKind.file;
  mode = mode;
  sha256 = some "digest";
  len = 1;
  offset = 0;
  target = none;
}

abbrev first : WorkspaceArchive
first = record { entries = file_at "a.txt" 420 ∷ file_at "b.txt" 420 ∷ []; data_bytes = 7 ∷ [] }

abbrev second : WorkspaceArchive
second = record { entries = file_at "a.txt" 493 ∷ file_at "c.txt" 420 ∷ []; data_bytes = 7 ∷ [] }

abbrev b_gone : WorkspaceChange
b_gone = record { path = "b.txt"; kind = ChangeKind.removed; entry_kind = EntryKind.file }

changes_to-Reported_example : In b_gone (changes_to first second)
unfolding by_path entries_from get insert string_lt
changes_to-Reported_example = ((changes_to-Reported first second).1 b_gone).1 (refl, refl)
