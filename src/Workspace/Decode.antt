-- ===== src/Workspace/Decode.antt =====
-- `from_bytes` of `WorkspaceArchive` and `load_workspace_archive`, and that an archive is read back as
-- it was written.
use mathlib.Core.Path.{subst}
use replay_kit.Common.{
  ℕ, zero, suc, ◌+◌, ◌*◌, ◌/◌, ◌%◌, ◌^◌, ◌≤◌, ◌<◌, String, Bool, true, false, ◌&&◌, Option, some,
  List, [], ◌∷◌, In, length, ◌≡◌, refl, arith, inl, inr,
}
use replay_kit.Common.Result.{ok, guard, ok_or, ◌>>=◌, ◌>>◌}
use replay_kit.Common.Tests.{leb, ltb, nat_beq, Bool-cases}
use replay_kit.Common.Eq.{negate}
use replay_kit.Model.Records.{SnapshotRecord}
use replay_kit.Storage.Artifacts.{read_artifact_content}
use replay_kit.Storage.Blob.{Env, Bytes}
use replay_kit.Storage.Error.{Checked, invalid_input, bad_archive}
use replay_kit.Storage.State.{InMemoryStorage}
use replay_kit.Workspace.Bytes.{length-append_bytes, first_bytes-append, skip-append}
use replay_kit.Workspace.Archive.{
  WorkspaceArchive, WorkspaceEntry, magic, le_bytes, append_bytes, to_bytes, skip, first_bytes,
  is_file,
}
use replay_kit.Workspace.Files.{safe_relative}

abbrev pub bytes_equal : Bytes → Bytes → Bool
bytes_equal [] [] = true
bytes_equal [] (c ∷ cs) = false
bytes_equal (b ∷ bs) [] = false
bytes_equal (b ∷ bs) (c ∷ cs) = nat_beq b c && bytes_equal bs cs

-- `u64::from_le_bytes`.
unfoldable pub le_value : Bytes → ℕ
le_value [] = 0
le_value (b ∷ bs) = b + 256 * le_value bs

-- The check of each entry. The sum is that of a `u64`, which wraps round.
unfoldable pub check_entry : ℕ → WorkspaceEntry → Checked (Unit {0})
check_entry size entry = safe_relative entry.path >>= λ _.
    guard (negate (is_file entry && ltb size ((entry.offset + entry.len) % 2 ^ 64)))
      (invalid_input (bad_archive "file entry out of range"))

unfoldable pub check_entries : ℕ → List WorkspaceEntry → Checked (Unit {0})
check_entries size [] = ok tt
check_entries size (entry ∷ entries) = check_entry size entry >> check_entries size entries

-- What the `serde_json` package reads the text of a manifest as is a parameter.
module _ (read_manifest : Bytes → Option (List WorkspaceEntry)) where
  unfoldable pub decode_from : ℕ → Bytes → Checked WorkspaceArchive
  decode_from manifest_len body = do
    guard (leb manifest_len (length body))
        (invalid_input (bad_archive "manifest length out of range"))
    entries ←
        ok_or (read_manifest (first_bytes manifest_len body))
          (invalid_input (bad_archive "manifest"))
    let bytes = skip manifest_len body
    check_entries (length bytes) entries
    ok (record { entries = entries; data_bytes = bytes })

  unfoldable pub from_bytes : Bytes → Checked WorkspaceArchive
  from_bytes bytes = do
    guard (leb 14 (length bytes) && bytes_equal (first_bytes 6 bytes) magic)
        (invalid_input (bad_archive "missing RKWS1 header"))
    decode_from (le_value (first_bytes 8 (skip 6 bytes))) (skip 14 bytes)

  unfoldable pub load_workspace_archive :
      Env → SnapshotRecord → InMemoryStorage → Checked WorkspaceArchive
  load_workspace_archive env snapshot st =
      read_artifact_content env snapshot.run_id snapshot.artifact_id st >>= from_bytes

le_value-le_bytes : (k n : ℕ) → n < 256 ^ k → le_value (le_bytes k n) ≡ n
unfolding le_value le_bytes
le_value-le_bytes zero n h = omega arith
le_value-le_bytes (suc k) n h =
    let q : 256 ^ suc k ≡ 256 * 256 ^ k = omega arith in
    omega (arith, le_value-le_bytes k (n / 256) (omega (arith, q)))

length-le_bytes : (k n : ℕ) → length (le_bytes k n) ≡ k
unfolding le_bytes
length-le_bytes zero n = refl
length-le_bytes (suc k) n = omega (arith, length-le_bytes k (n / 256))

-- The size of the bytes is written as a number of eight bytes.
sized : (k n : ℕ) (b : Bytes) → first_bytes k (append_bytes (le_bytes k n) b) ≡ le_bytes k n
sized k n b =
    subst (λ m. first_bytes m (append_bytes (le_bytes k n) b) ≡ le_bytes k n) (length-le_bytes k n)
      (first_bytes-append (le_bytes k n) b)

behind_size : (k n : ℕ) (b : Bytes) → skip k (append_bytes (le_bytes k n) b) ≡ b
behind_size k n b =
    subst (λ m. skip m (append_bytes (le_bytes k n) b) ≡ b) (length-le_bytes k n)
      (skip-append (le_bytes k n) b)

-- An entry that may be restored, with its content within the bytes of the archive.
pub record IsReadable (size : ℕ) (entry : WorkspaceEntry) : Type 0 where
  pub parts : List String
  pub safe : safe_relative entry.path ≡ ok parts
  pub within : is_file entry ≡ true → entry.offset + entry.len ≤ size

check_entry-IsReadable :
    (size : ℕ) (entry : WorkspaceEntry)
    → size < 2 ^ 64
    → IsReadable size entry
    → check_entry size entry ≡ ok tt
unfolding check_entry
check_entry-IsReadable size entry small r = elim (Bool-cases (is_file entry)) [
  | inl t ↦
      let fits : ltb size ((entry.offset + entry.len) % 2 ^ 64) ≡ false =
        ground (arith, r.within t) in
      rw (r.safe, t, fits) refl
  | inr f ↦ rw (r.safe, f) refl
]

check_entries-IsReadable :
    (size : ℕ) (entries : List WorkspaceEntry)
    → size < 2 ^ 64
    → ((entry : WorkspaceEntry) → In entry entries → IsReadable size entry)
    → check_entries size entries ≡ ok tt
unfolding check_entries
check_entries-IsReadable size [] small all = refl
check_entries-IsReadable size (entry ∷ entries) small all =
    rw (check_entry-IsReadable size entry small (all entry (inl refl)))
      (check_entries-IsReadable size entries small (λ x i. all x (inr i)))

module _ (manifest_json : List WorkspaceEntry → Bytes)
    (read_manifest : Bytes → Option (List WorkspaceEntry)) where
  framed :
      (n : ℕ) (body : Bytes)
      → n < 2 ^ 64
      → from_bytes read_manifest (append_bytes magic (append_bytes (le_bytes 8 n) body))
        ≡ decode_from read_manifest n body
  unfolding from_bytes
  framed n body small =
      let long : leb 14 (length (append_bytes magic (append_bytes (le_bytes 8 n) body))) ≡ true =
        ground (arith, length-append_bytes (le_bytes 8 n) body, length-le_bytes 8 n) in
      rw (long, sized 8 n body, behind_size 8 n body, le_value-le_bytes 8 n small) refl

  decoded :
      (a : WorkspaceArchive)
      → read_manifest (manifest_json a.entries) ≡ some a.entries
      → check_entries (length a.data_bytes) a.entries ≡ ok tt
      → decode_from read_manifest
          (length (manifest_json a.entries))
          (append_bytes (manifest_json a.entries) a.data_bytes)
        ≡ ok a
  unfolding decode_from
  decoded a read checked =
      let json = manifest_json a.entries in
      let long : leb (length json) (length (append_bytes json a.data_bytes)) ≡ true =
        ground (arith, length-append_bytes json a.data_bytes) in
      rw (long, first_bytes-append json a.data_bytes, read, skip-append json a.data_bytes, checked)
        refl

  to_bytes-framed :
      (a : WorkspaceArchive)
      → to_bytes manifest_json a
        ≡ append_bytes magic (
            append_bytes
              (le_bytes 8 (length (manifest_json a.entries) % 2 ^ 64))
              (append_bytes (manifest_json a.entries) a.data_bytes))
  unfolding to_bytes le_bytes
  to_bytes-framed a = refl

  -- An archive whose entries may be restored, with contents within its bytes, is read back from what
  -- `to_bytes` makes of it, where the JSON of its manifest is read back and no size reaches 2⁶⁴.
  pub from_bytes-to_bytes :
      (a : WorkspaceArchive)
      → read_manifest (manifest_json a.entries) ≡ some a.entries
      → length (manifest_json a.entries) < 2 ^ 64
      → length a.data_bytes < 2 ^ 64
      → ((entry : WorkspaceEntry) → In entry a.entries → IsReadable (length a.data_bytes) entry)
      → from_bytes read_manifest (to_bytes manifest_json a) ≡ ok a
  from_bytes-to_bytes a read small_json small all =
      let json = manifest_json a.entries in
      let whole : length json % 2 ^ 64 ≡ length json = omega (arith, small_json) in
      rw
        (
          to_bytes-framed a,
          whole,
          framed (length json) (append_bytes json a.data_bytes) small_json,
          decoded a read (check_entries-IsReadable (length a.data_bytes) a.entries small all),
        )
        refl
