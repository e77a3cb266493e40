-- ===== src/Storage/Blob.antt =====
-- `InMemoryBlobStore` of crates/storage/src/blob.rs: blobs under the digest of their bytes. The
-- digest is the `sha2` package's, so it is a parameter.
use replay_kit.Common.{ℕ, String, Bool, Option, none, some, List, length}
use replay_kit.Common.Eq.{◌!=◌, nat_eq, string_eq, string_ord}
use replay_kit.Common.Map.{Map, get, insert, remove, contains_key}
use replay_kit.Common.Result.{ok, err}
use replay_kit.Common.Tests.{if◌then◌else◌}
use replay_kit.Storage.Error.{Checked, not_found, blob_not_found}

abbrev pub Bytes : Type 0
Bytes = List ℕ

pub record BlobRef : Type 0 where
  pub sha256 : String
  pub byte_len : ℕ

pub data BlobIntegrity : Type 0 where
  valid missing : BlobIntegrity
  size_mismatch : ℕ → ℕ → BlobIntegrity
  hash_mismatch : String → String → BlobIntegrity

abbrev pub Blobs : Type 0
Blobs = Map String Bytes

-- What the store does not implement: the digest of some bytes, and what the file system says of a
-- path, whether it is a regular file and how long it is, and its canonical form.
pub record Env : Type 0 where
  pub canonicalize : String → Option String
  pub sha256_hex : Bytes → String
  pub metadata : String → Option (Bool × ℕ)

-- `or_insert_with`: bytes that are there stay.
unfoldable pub keep_or_insert : String → Bytes → Blobs → Blobs
keep_or_insert hash data_bytes blobs = elim (get hash blobs) [
  | none ↦ insert hash data_bytes blobs
  | some old ↦ blobs
]

module _ (env : Env) where
  unfoldable pub store : Bytes → Blobs → BlobRef × Blobs
  store data_bytes blobs =
      let hash = env.sha256_hex data_bytes in
      (record { sha256 = hash; byte_len = length data_bytes }, keep_or_insert hash data_bytes blobs)

  unfoldable pub check_blob : BlobRef → Bytes → BlobIntegrity
  check_blob blob_ref bytes =
      let actual_size = length bytes in
      if actual_size != blob_ref.byte_len
      then BlobIntegrity.size_mismatch blob_ref.byte_len actual_size
      else let actual_hash = env.sha256_hex bytes in
        if actual_hash != blob_ref.sha256
        then BlobIntegrity.hash_mismatch blob_ref.sha256 actual_hash
        else BlobIntegrity.valid

  unfoldable pub verify : BlobRef → Blobs → BlobIntegrity
  verify blob_ref blobs = elim (get blob_ref.sha256 blobs) [
    | none ↦ BlobIntegrity.missing
    | some bytes ↦ check_blob blob_ref bytes
  ]

unfoldable pub read : BlobRef → Blobs → Checked Bytes
read blob_ref blobs = elim (get blob_ref.sha256 blobs) [
  | none ↦ err (not_found (blob_not_found blob_ref.sha256))
  | some bytes ↦ ok bytes
]

abbrev pub exists : BlobRef → Blobs → Bool
exists blob_ref blobs = contains_key blob_ref.sha256 blobs

unfoldable pub remove_blob : BlobRef → Blobs → Bool × Blobs
remove_blob blob_ref blobs = (contains_key blob_ref.sha256 blobs, remove blob_ref.sha256 blobs)
