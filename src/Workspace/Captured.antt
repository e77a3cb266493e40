-- ===== src/Workspace/Captured.antt =====
-- What a capture holds: the content of each file at the place that its entry says.
use Prim.Native.String.{◌++◌}
use mathlib.Core.Path.{subst}
use replay_kit.Common.{
  ℕ, ◌+◌, ◌≤◌, String, Bool, true, false, some, List, [], ◌∷◌, length, member, push_back, map, ◌≡◌,
  refl, ap, sym, In, inl, inr, In-append, arith,
}
use replay_kit.Common.Eq.{string_eq}
use replay_kit.Common.Result.{ok, ok-chain}
use replay_kit.Storage.Blob.{Bytes, Env}
use replay_kit.Storage.Error.{Checked}
use replay_kit.Workspace.Bytes.{length-append_bytes, part-append, part-last}
use replay_kit.Workspace.Archive.{
  EntryKind-discrete, WorkspaceArchive, WorkspaceEntry, Node, file, dir, symlink, special,
  unreadable, Children, nil, child, unnamed, capture_with, walk_node, walk_children,
  unless_excluded, push_file, push_entry, append_bytes, is_file, slice, empty_archive, file_entry,
  dir_entry, symlink_entry, relative, sort_children, canonical,
}

dir_entry-no_file : (rel : String) (mode : ℕ) → is_file (dir_entry rel mode) ≡ false
unfolding EntryKind-discrete
dir_entry-no_file rel mode = refl

symlink_entry-no_file : (rel target : String) → is_file (symlink_entry rel target) ≡ false
unfolding EntryKind-discrete
symlink_entry-no_file rel target = refl

module _ (env : Env) where
  -- A file's entry lies within the data, and its digest is that of the bytes it points to.
  pub record FileIn (a : WorkspaceArchive) (entry : WorkspaceEntry) : Type 0 where
    pub within : entry.offset + entry.len ≤ length a.data_bytes
    pub digest : entry.sha256 ≡ some (env.sha256_hex (slice a entry))

  -- So does every file's, and the data are no more than the limit.
  pub record IsSound (max_bytes : ℕ) (a : WorkspaceArchive) : Type 0 where
    pub files :
        (entry : WorkspaceEntry) → In entry a.entries → is_file entry ≡ true → FileIn a entry
    pub limited : length a.data_bytes ≤ max_bytes

  empty-IsSound : (max_bytes : ℕ) → IsSound max_bytes empty_archive
  empty-IsSound max_bytes = record { files = λ entry m t. absurd m; limited = omega arith }

  push-IsSound :
      (max_bytes : ℕ) (a : WorkspaceArchive) (entry : WorkspaceEntry)
      → is_file entry ≡ false
      → IsSound max_bytes a
      → IsSound max_bytes (push_entry entry a)
  push-IsSound max_bytes a entry f s = record {
    files = λ e m t. elim (In-append e a.entries (entry ∷ []) m) [
      | inl old ↦ record { within = (s.files e old t).within; digest = (s.files e old t).digest }
      | inr (inl same) ↦ cc (ap is_file same)
      | inr (inr none_left) ↦ absurd none_left
    ];
    limited = s.limited;
  }

  module _ (bytes : Bytes) (a : WorkspaceArchive) where
    abbrev with_file : WorkspaceEntry → WorkspaceArchive
    with_file entry = record {
      entries = push_back a.entries entry;
      data_bytes = append_bytes a.data_bytes bytes;
    }

    old_FileIn : (new entry : WorkspaceEntry) → FileIn a entry → FileIn (with_file new) entry
    old_FileIn new entry f = record {
      within = omega (arith, f.within, length-append_bytes a.data_bytes bytes);
      digest = rw (part-append entry.offset entry.len a.data_bytes bytes f.within) f.digest;
    }

    new_FileIn :
        (rel : String) (mode : ℕ)
        → let new = file_entry env rel mode bytes (length a.data_bytes) in
          FileIn (with_file new) new
    new_FileIn rel mode = record {
      within = omega (arith, length-append_bytes a.data_bytes bytes);
      digest = rw (part-last a.data_bytes bytes) refl;
    }

    with_file-IsSound :
        (max_bytes : ℕ) (rel : String) (mode : ℕ)
        → length a.data_bytes + length bytes ≤ max_bytes
        → IsSound max_bytes a
        → IsSound max_bytes (with_file (file_entry env rel mode bytes (length a.data_bytes)))
    with_file-IsSound max_bytes rel mode h s =
        let new = file_entry env rel mode bytes (length a.data_bytes) in
        record {
          files = λ e m t. elim (In-append e a.entries (new ∷ []) m) [
            | inl old ↦ old_FileIn new e (s.files e old t)
            | inr (inl same) ↦ subst (FileIn (with_file new)) (sym same) (new_FileIn rel mode)
            | inr (inr none_left) ↦ absurd none_left
          ];
          limited = omega (arith, length-append_bytes a.data_bytes bytes);
        }

module _ (env : Env) (exclude : List String) (max_bytes : ℕ) where
  push_file-IsSound :
      (rel : String) (mode : ℕ) (bytes : Bytes) (a b : WorkspaceArchive)
      → IsSound env max_bytes a
      → push_file env max_bytes rel mode bytes a ≡ ok b
      → IsSound env max_bytes b
  unfolding push_file
  push_file-IsSound rel mode bytes a b s h =
      let new = file_entry env rel mode bytes (length a.data_bytes) in
      let facts : (length a.data_bytes + length bytes ≤ max_bytes)
          × (with_file env bytes a new ≡ b) =
        ground arith in
      subst (IsSound env max_bytes) facts.1
        (with_file-IsSound env bytes a max_bytes rel mode facts.0 s)

  same :
      (a b : WorkspaceArchive)
      → IsSound env max_bytes a
      → Path (Checked WorkspaceArchive) (ok a) (ok b)
      → IsSound env max_bytes b
  same a b s h = let e : a ≡ b = ground arith in subst (IsSound env max_bytes) e s

  unless-IsSound :
      (excluded : Bool) (walked : Checked WorkspaceArchive) (a c : WorkspaceArchive)
      → IsSound env max_bytes a
      → (walked ≡ ok c → IsSound env max_bytes c)
      → unless_excluded env exclude max_bytes excluded walked a ≡ ok c
      → IsSound env max_bytes c
  unless-IsSound true walked a c s f h = same a c s h
  unless-IsSound false walked a c s f h = f h

  mutual
    unfolding walk_node walk_children

    walk_node-IsSound :
        (full rel : String) (node : Node) (a b : WorkspaceArchive)
        → IsSound env max_bytes a
        → walk_node env exclude max_bytes full rel node a ≡ ok b
        → IsSound env max_bytes b
    walk_node-IsSound full rel (symlink target) a b s h =
        same (push_entry (symlink_entry rel target) a) b
          (push-IsSound env max_bytes a (symlink_entry rel target)
            (symlink_entry-no_file rel target) s)
          h
    walk_node-IsSound full rel (dir mode children) a b s h =
        walk_children-IsSound full rel children (push_entry (dir_entry rel mode) a) b
          (push-IsSound env max_bytes a (dir_entry rel mode) (dir_entry-no_file rel mode) s) h
    walk_node-IsSound full rel (file mode bytes) a b s h = push_file-IsSound rel mode bytes a b s h
    walk_node-IsSound full rel special a b s h = same a b s h
    walk_node-IsSound full rel unreadable a b s h = cc

    walk_children-IsSound :
        (at prefix : String) (children : Children) (a b : WorkspaceArchive)
        → IsSound env max_bytes a
        → walk_children env exclude max_bytes at prefix children a ≡ ok b
        → IsSound env max_bytes b
    walk_children-IsSound at prefix nil a b s h = same a b s h
    walk_children-IsSound at prefix (unnamed rest) a b s h = cc
    walk_children-IsSound at prefix (child name node rest) a b s h =
        let full = at ++ "/" ++ name in
        let here = walk_node env exclude max_bytes full (relative prefix name) node a in
        let (c, visited, rest_walked) =
          ok-chain (walk_children env exclude max_bytes at prefix rest)
            (unless_excluded env exclude max_bytes (member full exclude) here a) h in
        walk_children-IsSound at prefix rest c b
          (unless-IsSound (member full exclude) here a c s
            (walk_node-IsSound full (relative prefix name) node a c s) visited)
          rest_walked

module _ (env : Env) (exclude : List String) (max_bytes : ℕ) where
  -- A capture that succeeds holds, for every file in it, the bytes of which it gives the digest, at
  -- the place that it gives, and no more bytes in all than the limit.
  pub capture_with-IsSound :
      (root : String) (node : Node) (b : WorkspaceArchive)
      → capture_with env exclude max_bytes root node ≡ ok b
      → IsSound env max_bytes b
  unfolding capture_with
  capture_with-IsSound root (dir mode children) b h =
      walk_children-IsSound env (map (canonical env) exclude) max_bytes (canonical env root) ""
        (sort_children children) empty_archive b (empty-IsSound env max_bytes) h
  capture_with-IsSound root (file mode bytes) b h = cc
  capture_with-IsSound root (symlink target) b h = cc
  capture_with-IsSound root special b h = cc
  capture_with-IsSound root unreadable b h = cc
