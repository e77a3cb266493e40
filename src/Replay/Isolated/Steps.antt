-- ===== src/Replay/Isolated/Steps.antt =====
-- Every call of the store about one run leaves each other run as it is.
use replay_kit.Common.{◌≡◌, ◌≢◌, refl, sym, ◌∙◌}
use replay_kit.Common.Eq.{string_eq, string_ord}
use replay_kit.Common.Result.{ok, err}
use replay_kit.Model.Records.{RunId, ArtifactRecord}
use replay_kit.Replay.Keeping.{IsOnRun}
use replay_kit.Storage.Artifacts
use replay_kit.Storage.Artifacts.{record_stored, with_blob}
use replay_kit.Storage.Blob.{Env, store}
use replay_kit.Storage.Calls.{
  Call, after, commit, allocate_id, next_sequence, insert_run, update_run, upsert_span,
  insert_event, insert_artifact, insert_snapshot, insert_edge, insert_branch, insert_replay_job,
  update_replay_job, insert_diff, store_artifact_with_content, cleanup_branch_execution,
}
use replay_kit.Storage.Error.{Checked}
use replay_kit.Storage.Runs
use replay_kit.Storage.State.{MemoryState, InMemoryStorage}
use replay_kit.Replay.Isolated.Same.{
  SameRun, SameRun-refl, parts, update_run_same, upsert_span_same, insert_event_same,
  insert_edge_same, insert_artifact_same, insert_snapshot_same, insert_branch_same,
  insert_replay_job_same, update_replay_job_same,
}

-- A call that fails leaves the run as it is.
commit_same :
    (q : RunId) (st : InMemoryStorage) (r : Checked MemoryState)
    → ((t : MemoryState) → r ≡ ok t → SameRun st.state t q)
    → SameRun st.state (commit st r).state q
commit_same q st (ok t) k = k t refl
commit_same q st (err e) k = SameRun-refl st.state q

stored_same :
    (q : RunId) (env : Env) (artifact : ArtifactRecord) (st : InMemoryStorage)
    (r : Checked MemoryState)
    → ((t : MemoryState) → r ≡ ok t → SameRun st.state t q)
    → SameRun st.state (record_stored env artifact st r).1.state q
unfolding record_stored
stored_same q env artifact st (ok t) k = k t refl
stored_same q env artifact st (err e) k = SameRun-refl st.state q

-- A call about another run leaves the run as it is.
pub on_run_same :
    (env : Env) (r q : RunId) (c : Call) (st : InMemoryStorage)
    → r ≢ q
    → IsOnRun r c
    → SameRun st.state (after env c st).state q
unfolding after Runs.allocate_id Artifacts.store_artifact_with_content with_blob
on_run_same env r q (allocate_id kind) st other on =
    parts st.state q _ refl (λ i. refl) (λ i. refl) (λ i. refl) refl refl
on_run_same env r q (insert_branch branch) st other on =
    commit_same q st _ (λ t. insert_branch_same st.state q env branch)
on_run_same env r q (insert_replay_job job) st other on =
    commit_same q st _ (λ t. insert_replay_job_same st.state q job)
on_run_same env r q (update_replay_job job) st other on =
    commit_same q st _ (λ t. update_replay_job_same st.state q job)
on_run_same env r q (store_artifact_with_content artifact content) st other on =
    let (blob_ref, blobs) = store env content st.blobs in
    stored_same q env (with_blob env artifact blob_ref) (record st { blobs = blobs }) _
      (λ t.
        insert_artifact_same st.state q env (with_blob env artifact blob_ref)
          (λ e. other (sym on ∙ e)))
on_run_same env r q (next_sequence run_id) st other on = absurd on
on_run_same env r q (insert_run run) st other on = absurd on
on_run_same env r q (insert_diff diff) st other on = absurd on
on_run_same env r q (cleanup_branch_execution target b j) st other on = absurd on
on_run_same env r q (update_run run) st other on =
    commit_same q st _ (λ t. update_run_same st.state q run (λ e. other (sym on ∙ e)))
on_run_same env r q (upsert_span span) st other on =
    commit_same q st _ (λ t. upsert_span_same st.state q span (λ e. other (sym on ∙ e)))
on_run_same env r q (insert_event event) st other on =
    commit_same q st _ (λ t. insert_event_same st.state q event (λ e. other (sym on ∙ e)))
on_run_same env r q (insert_edge edge) st other on =
    commit_same q st _ (λ t. insert_edge_same st.state q edge (λ e. other (sym on ∙ e)))
on_run_same env r q (insert_artifact artifact) st other on =
    commit_same q st _ (λ t. insert_artifact_same st.state q env artifact (λ e. other (sym on ∙ e)))
on_run_same env r q (insert_snapshot snapshot) st other on =
    commit_same q st _ (λ t. insert_snapshot_same st.state q env snapshot (λ e. other (sym on ∙ e)))
