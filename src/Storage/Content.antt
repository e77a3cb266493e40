-- ===== src/Storage/Content.antt =====
-- Content that is stored is read back, and verifies.
use replay_kit.Common.{ℕ, String, none, some, length, ◌≡◌, refl, ap, ◌⊎◌, inl, inr, arith}
use replay_kit.Common.Eq.{nat_eq, string_eq, string_ord}
use replay_kit.Common.Map.{get, get-insert_same}
use replay_kit.Common.Result.{ok, err}
use replay_kit.Common.Table.{insert2, get2-insert2}
use replay_kit.Model.Records.{ArtifactRecord}
use replay_kit.Storage.Artifacts.{
  insert_artifact, with_blob, record_stored, store_artifact_with_content, read_artifact_content,
  verify_artifact_integrity,
}
use replay_kit.Storage.Blob.{
  Env, Bytes, Blobs, BlobIntegrity, store, read, verify, check_blob, keep_or_insert,
}
use replay_kit.Storage.Error.{Checked}
use replay_kit.Storage.State.{MemoryState, InMemoryStorage, artifact_at, get_artifact}
use replay_kit.Storage.Validate.{validate_artifact_record}

-- The store has no other content under the digest of this one.
abbrev pub NoCollision : Env → Bytes → Blobs → Type 0
NoCollision env content blobs =
    (get (env.sha256_hex content) blobs ≡ none)
    ⊎ (get (env.sha256_hex content) blobs ≡ some content)

kept :
    (hash : String) (content : Bytes) (blobs : Blobs)
    → (get hash blobs ≡ none) ⊎ (get hash blobs ≡ some content)
    → get hash (keep_or_insert hash content blobs) ≡ some content
unfolding keep_or_insert
kept hash content blobs (inl miss) = rw (miss, keep_or_insert) (get-insert_same hash content blobs)
kept hash content blobs (inr hit) = rw (hit, keep_or_insert) hit

-- An artifact that was inserted is there, and validates.
inserted :
    {t : MemoryState} (env : Env) (artifact : ArtifactRecord) (s : MemoryState)
    → insert_artifact env artifact s ≡ ok t
    → (validate_artifact_record env artifact ≡ ok tt)
      × (record s { artifacts = insert2 artifact.run_id artifact.artifact_id artifact s.artifacts }
          ≡ t)
unfolding insert_artifact
inserted env artifact s h = ground arith

get_artifact-inserted :
    {t : MemoryState} (env : Env) (artifact : ArtifactRecord) (s : MemoryState)
    → insert_artifact env artifact s ≡ ok t
    → get_artifact env artifact.run_id artifact.artifact_id t ≡ ok artifact
unfolding get_artifact
get_artifact-inserted {t = t} env artifact s h =
    let (valid, done) = inserted env artifact s h in
    let there : artifact_at t artifact.run_id artifact.artifact_id ≡ some artifact = rw (← done) (
      ground (
        arith,
        get2-insert2 artifact.run_id artifact.run_id artifact.artifact_id artifact.artifact_id
            artifact s.artifacts,
        string_eq.equal_iff artifact.run_id artifact.run_id,
        string_eq.equal_iff artifact.artifact_id artifact.artifact_id,
      )) in
    rw (there, valid) refl

record_stored-ok :
    (env : Env) (artifact stored : ArtifactRecord) (st after : InMemoryStorage)
    (r : Checked MemoryState)
    → record_stored env artifact st r ≡ (ok stored, after)
    → (stored ≡ artifact) × (r ≡ ok after.state) × (after.blobs ≡ st.blobs)
unfolding record_stored
record_stored-ok env artifact stored st after (ok s) h = ground arith
record_stored-ok env artifact stored st after (err e) h = cc

-- What a call that succeeds leaves: the record with its blob inserted, and the blob kept.
stored_as :
    (env : Env) (artifact : ArtifactRecord) (content : Bytes) (st after : InMemoryStorage)
    (stored : ArtifactRecord)
    → store_artifact_with_content env artifact content st ≡ (ok stored, after)
    → (stored ≡ with_blob env artifact (store env content st.blobs).0)
      × (insert_artifact env stored st.state ≡ ok after.state)
      × (after.blobs ≡ keep_or_insert (env.sha256_hex content) content st.blobs)
unfolding store_artifact_with_content store with_blob
stored_as env artifact content st after stored h =
    let (blob_ref, blobs) = store env content st.blobs in
    let new = with_blob env artifact blob_ref in
    let (same, done, left) =
      record_stored-ok env new stored (record st { blobs = blobs }) after
        (insert_artifact env new st.state) h in
    (same, cc, left)

read-kept :
    (hash : String) (n : ℕ) (content : Bytes) (blobs : Blobs)
    → get hash blobs ≡ some content
    → read (record { sha256 = hash; byte_len = n }) blobs ≡ ok content
unfolding read
read-kept hash n content blobs h = rw (h, read) refl

verify-kept :
    (env : Env) (hash : String) (n : ℕ) (content : Bytes) (blobs : Blobs)
    → get hash blobs ≡ some content
    → n ≡ length content
    → hash ≡ env.sha256_hex content
    → verify env (record { sha256 = hash; byte_len = n }) blobs ≡ BlobIntegrity.valid
unfolding verify check_blob
verify-kept env hash n content blobs h size digest =
    rw (h, verify)
      (ground (
        arith,
        nat_eq.equal_iff (length content) n,
        string_eq.equal_iff (env.sha256_hex content) hash,
      ))

-- The content of an artifact that is stored with success is what `read_artifact_content` then returns,
-- and `verify_artifact_integrity` finds it valid, unless other content with the same digest was
-- already there.
pub read-store :
    (env : Env) (artifact : ArtifactRecord) (content : Bytes) (st after : InMemoryStorage)
    (stored : ArtifactRecord)
    → store_artifact_with_content env artifact content st ≡ (ok stored, after)
    → NoCollision env content st.blobs
    → (read_artifact_content env stored.run_id stored.artifact_id after ≡ ok content)
      × (verify_artifact_integrity env stored.run_id stored.artifact_id after
          ≡ ok BlobIntegrity.valid)
unfolding read_artifact_content verify_artifact_integrity with_blob store
read-store env artifact content st after stored h fresh =
    let (shape, done, blobs) = stored_as env artifact content st after stored h in
    let found = get_artifact-inserted env stored st.state done in
    let digest : stored.sha256 ≡ env.sha256_hex content = ap (λ a. a.sha256) shape in
    let size : stored.byte_len ≡ length content = ap (λ a. a.byte_len) shape in
    let there : get stored.sha256 after.blobs ≡ some content =
      cc (kept (env.sha256_hex content) content st.blobs fresh) in
    (
      rw found (read-kept stored.sha256 stored.byte_len content after.blobs there),
      rw found (
          ap ok
            (verify-kept env stored.sha256 stored.byte_len content after.blobs there size digest)),
    )
