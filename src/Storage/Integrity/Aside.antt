-- ===== src/Storage/Integrity/Aside.antt =====
-- The writes that the invariant does not speak of, and those of diffs, keep the store's integrity.
use mathlib.Core.Path.{subst}
use replay_kit.Common.{ℕ, true, ◌≡◌, some, arith}
use replay_kit.Common.Eq.{string_eq, string_ord, pair_eq, pair_ord}
use replay_kit.Common.Map.{Map, get, insert, get-insert, entry_or}
use replay_kit.Common.Result.{ok}
use replay_kit.Model.Enums.{IdKind}
use replay_kit.Model.Records.{
  RunId, BranchId, ReplayJobId, BranchRecord, ReplayJobRecord, RunDiffRecord,
}
use replay_kit.Storage.Blob.{Env}
use replay_kit.Storage.Branches
use replay_kit.Storage.Runs
use replay_kit.Storage.Runs.{next_u64}
use replay_kit.Storage.State.{MemoryState, ensure_run_exists, has_run}
use replay_kit.Storage.Integrity.{
  IsWellFormed, Extends, SpanValid-extend, ArtifactValid-extend, SnapshotValid-extend,
  EventValid-extend, EdgeValid-extend,
}

-- What the invariant does not speak of: the counters, the branches and the jobs.
module _ (s : MemoryState) (branches : Map BranchId BranchRecord)
    (jobs : Map ReplayJobId ReplayJobRecord) (sequences : Map RunId ℕ) (id_counters : Map IdKind ℕ)
    (diffs : Map (RunId × RunId) RunDiffRecord) where
  abbrev aside : MemoryState
  aside = record s {
    branches = branches;
    replay_jobs = jobs;
    sequences = sequences;
    id_counters = id_counters;
    diffs = diffs;
  }

  aside-Extends : Extends s aside
  aside-Extends = λ r. record { run = λ h. h; spans = λ i h. h; artifacts = λ i x h. h }

  aside-IsWellFormed :
      ((p q : RunId) (x : RunDiffRecord)
        → get (p, q) diffs ≡ some x
        → (has_run s p ≡ true) × (has_run s q ≡ true))
      → IsWellFormed s
      → IsWellFormed aside
  aside-IsWellFormed valid w = record {
    runs = w.runs;
    spans = λ r i x h. SpanValid-extend (aside-Extends r) (w.spans r i x h);
    artifacts = λ r i x h. ArtifactValid-extend (aside-Extends r) (w.artifacts r i x h);
    snapshots = λ r i x h. SnapshotValid-extend (aside-Extends r) (w.snapshots r i x h);
    events = λ r x h. EventValid-extend (aside-Extends r) (w.events r x h);
    distinct_events = w.distinct_events;
    edges = λ r x h. EdgeValid-extend (aside-Extends r) (w.edges r x h);
    diffs = valid;
  }

module _ (s : MemoryState) (w : IsWellFormed s) where
  open s use {branches, replay_jobs, sequences, id_counters, diffs}

  pub insert_branch-IsWellFormed :
      (env : Env) (branch : BranchRecord) (t : MemoryState)
      → Branches.insert_branch env branch s ≡ ok t
      → IsWellFormed t
  unfolding Branches.insert_branch
  insert_branch-IsWellFormed env branch t h =
      let same : aside s (insert branch.branch_id branch branches) replay_jobs sequences id_counters
            diffs
          ≡ t =
        ground arith in
      subst IsWellFormed same (aside-IsWellFormed s _ _ _ _ _ w.diffs w)

  pub insert_replay_job-IsWellFormed :
      (job : ReplayJobRecord) (t : MemoryState)
      → Branches.insert_replay_job job s ≡ ok t
      → IsWellFormed t
  unfolding Branches.insert_replay_job
  insert_replay_job-IsWellFormed job t h =
      let same : aside s branches (insert job.replay_job_id job replay_jobs) sequences id_counters
            diffs
          ≡ t =
        ground arith in
      subst IsWellFormed same (aside-IsWellFormed s _ _ _ _ _ w.diffs w)

  pub update_replay_job-IsWellFormed :
      (job : ReplayJobRecord) (t : MemoryState)
      → Branches.update_replay_job job s ≡ ok t
      → IsWellFormed t
  unfolding Branches.update_replay_job
  update_replay_job-IsWellFormed job t h =
      let same : aside s branches (insert job.replay_job_id job replay_jobs) sequences id_counters
            diffs
          ≡ t =
        ground arith in
      subst IsWellFormed same (aside-IsWellFormed s _ _ _ _ _ w.diffs w)

  insert_diff_done :
      (diff : RunDiffRecord) (t : MemoryState)
      → Branches.insert_diff diff s ≡ ok t
      → (has_run s diff.source_run_id ≡ true)
        × (has_run s diff.target_run_id ≡ true)
        × (aside s branches replay_jobs sequences id_counters
              (insert (diff.source_run_id, diff.target_run_id) diff diffs)
            ≡ t)
  unfolding Branches.insert_diff ensure_run_exists
  insert_diff_done diff t h = ground arith

  pub insert_diff-IsWellFormed :
      (diff : RunDiffRecord) (t : MemoryState) → Branches.insert_diff diff s ≡ ok t → IsWellFormed t
  insert_diff-IsWellFormed diff t h =
      let (source, target, same) = insert_diff_done diff t h in
      subst IsWellFormed same (
        aside-IsWellFormed s _ _ _ _ _
          (λ p q x at. ground (
            arith,
            source,
            target,
            get-insert (diff.source_run_id, diff.target_run_id) (p, q) diff diffs,
            string_eq.equal_iff diff.source_run_id p,
            string_eq.equal_iff diff.target_run_id q,
            w.diffs p q x,
          ))
          w)

  pub allocate_id-IsWellFormed : (kind : IdKind) → IsWellFormed (Runs.allocate_id kind s).1
  unfolding Runs.allocate_id
  allocate_id-IsWellFormed kind =
      aside-IsWellFormed s branches replay_jobs sequences _ diffs w.diffs w

  pub next_sequence-IsWellFormed :
      (r : RunId) (n : ℕ) (t : MemoryState) → Runs.next_sequence r s ≡ ok (n, t) → IsWellFormed t
  unfolding Runs.next_sequence
  next_sequence-IsWellFormed r n t h =
      let same : aside s branches replay_jobs
            (insert r (next_u64 (entry_or r 0 sequences)) sequences) id_counters diffs
          ≡ t =
        ground arith in
      subst IsWellFormed same (aside-IsWellFormed s _ _ _ _ _ w.diffs w)
