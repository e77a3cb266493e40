-- ===== src/Storage/Cleanup.antt =====
-- `cleanup_branch_execution` of `InMemoryStorage`.
use replay_kit.Common.{String, Bool, ◌&&◌, List, [], ◌∷◌, ◌++◌, member, map}
use replay_kit.Common.Eq.{◌!=◌, string_eq, pair_eq}
use replay_kit.Common.Map.{Map, get, remove, retain, values}
use replay_kit.Common.Table.{or_empty}
use replay_kit.Common.Tests.{if◌then◌else◌}
use replay_kit.Model.Records.{RunId, BranchId, ReplayJobId, ArtifactId, ArtifactRecord}
use replay_kit.Storage.Blob.{Blobs, remove_blob}
use replay_kit.Storage.State.{MemoryState, InMemoryStorage}

-- A diff stays if the target run is on neither side.
abbrev pub spares : RunId → RunId × RunId → Bool
spares target pair = pair.0 != target && pair.1 != target

-- The records, with everything of the target run taken out.
unfoldable pub forget_run : RunId → BranchId → ReplayJobId → MemoryState → MemoryState
forget_run target branch_id job_id s = record s {
  artifacts = remove target s.artifacts;
  spans = remove target s.spans;
  events = remove target s.events;
  snapshots = remove target s.snapshots;
  edges = remove target s.edges;
  sequences = remove target s.sequences;
  runs = remove target s.runs;
  branches = remove branch_id s.branches;
  replay_jobs = remove job_id s.replay_jobs;
  diffs = retain (spares target) s.diffs;
}

-- The digests that the artifacts of some runs refer to.
unfoldable pub referenced_hashes : List (Map ArtifactId ArtifactRecord) → List String
referenced_hashes [] = []
referenced_hashes (artifacts ∷ rest) =
    map (λ artifact. artifact.sha256) (values artifacts) ++ referenced_hashes rest

-- The loop over the removed artifacts. A failure to remove a blob is only logged, and the
-- in-memory store has none.
unfoldable pub drop_blobs : List String → List ArtifactRecord → Blobs → Blobs
drop_blobs referenced [] blobs = blobs
drop_blobs referenced (artifact ∷ rest) blobs = drop_blobs referenced rest (
    if member artifact.sha256 referenced
    then blobs
    else (remove_blob (record { sha256 = artifact.sha256; byte_len = artifact.byte_len }) blobs).1)

unfoldable pub cleanup_branch_execution :
    RunId → BranchId → ReplayJobId → InMemoryStorage → InMemoryStorage
cleanup_branch_execution target branch_id job_id st =
    let removed_artifacts = values (or_empty (get target st.state.artifacts)) in
    let s = forget_run target branch_id job_id st.state in
    record {
      state = s;
      blobs = drop_blobs (referenced_hashes (values s.artifacts)) removed_artifacts st.blobs;
    }
