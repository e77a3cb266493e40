-- ===== src/Examples/Store.antt =====
-- The store with the run in it.
use replay_kit.Common.{◌&&◌, none, some, [], ◌∷◌, any, member, ◌≡◌, refl, inr}
use replay_kit.Common.Eq.{string_eq, negate}
use replay_kit.Common.Map.{get}
use replay_kit.Common.Result.{ok}
use replay_kit.Common.Tests.{if◌then◌else◌}
use replay_kit.Common.Eq.{string_lt}
use replay_kit.Common.Map.{insert, remove}
use replay_kit.Common.Table.{get2, insert2}
use replay_kit.Common.Text.{is_blank, trim, trim_start, trim_end, is_whitespace}
use replay_kit.Storage.Cleanup.{cleanup_branch_execution, forget_run}
use replay_kit.Storage.State.{ensure_run_exists, ensure_optional_span}
use replay_kit.Storage.Validate.{validate_artifact_record, check_path, local_blob_path}
use replay_kit.Storage.Blob.{store, keep_or_insert}
use replay_kit.Storage.Artifacts.{record_stored, insert_artifact, with_blob}
use replay_kit.Examples.Fixtures.{
  shared_store, stored, some_env, some_calls, some_store, empty_store, artifact_of, content,
}
use replay_kit.Model.Records.{ArtifactRecord}
use replay_kit.Storage.Artifacts.{
  store_artifact_with_content, read_artifact_content, verify_artifact_integrity,
}
use replay_kit.Storage.Blob.{BlobIntegrity}
use replay_kit.Storage.Calls.{Call, after}
use replay_kit.Storage.Content.{read-store}
use replay_kit.Storage.Integrity.{IsWellFormed}
use replay_kit.Storage.Integrity.Calls.{
  after-IsWellFormed, run_calls-IsWellFormed, empty_state-IsWellFormed,
}
use replay_kit.Storage.Retention.{
  has_hash, cleaned, target_artifacts, still_referenced, blobs-cleanup, content-cleanup,
}
use replay_kit.Storage.State.{InMemoryStorage, artifact_at}

pub some_store-IsWellFormed : IsWellFormed some_store.state
some_store-IsWellFormed =
    run_calls-IsWellFormed some_env some_calls empty_store empty_state-IsWellFormed

after-IsWellFormed_example :
    IsWellFormed
      (after some_env (Call.cleanup_branch_execution "fork" "branch" "job") some_store).state
after-IsWellFormed_example =
    after-IsWellFormed some_env some_store some_store-IsWellFormed
      (Call.cleanup_branch_execution "fork" "branch" "job")

blobs-cleanup_example : get "two" (cleaned "fork" "branch" "job" shared_store).blobs ≡ (
    if any (has_hash "two") (target_artifacts "fork" "branch" "job" shared_store)
      && negate (member "two" (still_referenced "fork" "branch" "job" shared_store))
    then none
    else get "two" shared_store.blobs)
blobs-cleanup_example = blobs-cleanup "fork" "branch" "job" shared_store "two"

abbrev shared_artifact : ArtifactRecord
shared_artifact = stored (artifact_of "run" "x")

stays :
    artifact_at (cleaned "fork" "branch" "job" shared_store).state "run" "x" ≡ some shared_artifact
unfolding get get2 remove cleanup_branch_execution forget_run
stays = refl

content-cleanup_example :
    get "two" (cleaned "fork" "branch" "job" shared_store).blobs ≡ get "two" shared_store.blobs
content-cleanup_example =
    content-cleanup "fork" "branch" "job" shared_store "run" "x" shared_artifact stays

abbrev after_store : InMemoryStorage
after_store = record shared_store {
  state = record shared_store.state {
    artifacts =
        ("fork", ("y", stored (artifact_of "fork" "y")) ∷ [])
        ∷ ("run", ("x", shared_artifact) ∷ ("z", stored (artifact_of "run" "z")) ∷ [])
        ∷ [];
  };
}

stores :
    store_artifact_with_content some_env (artifact_of "run" "z") content shared_store
    ≡ (ok (stored (artifact_of "run" "z")), after_store)
unfolding store_artifact_with_content record_stored insert_artifact store with_blob keep_or_insert
    ensure_run_exists ensure_optional_span validate_artifact_record check_path local_blob_path
    is_blank trim trim_start trim_end is_whitespace get get2 insert insert2 string_lt
stores = refl

already : get "two" shared_store.blobs ≡ some content
unfolding get
already = refl

read-store_example :
    (read_artifact_content some_env "run" "z" after_store ≡ ok content)
    × (verify_artifact_integrity some_env "run" "z" after_store ≡ ok BlobIntegrity.valid)
read-store_example =
    read-store some_env (artifact_of "run" "z") content shared_store after_store
      (stored (artifact_of "run" "z")) stores (inr already)
