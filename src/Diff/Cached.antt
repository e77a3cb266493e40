-- ===== src/Diff/Cached.antt =====
-- A comparison is kept, and read back by `get_cached_diff`.
use replay_kit.Common.{ℕ, some, List, ◌≡◌, refl}
use replay_kit.Common.Action.{◌>>=◌, ◌>>◌}
use replay_kit.Common.Eq.{string_eq, string_ord, pair_eq, pair_ord}
use replay_kit.Common.Map.{get, insert, get-insert_same}
use replay_kit.Common.Result.{ok}
use replay_kit.Diff.Runs.{diff_record, diff_runs, get_cached_diff}
use replay_kit.Model.Enums.{IdKind, id_kind_eq, id_kind_ord}
use replay_kit.Model.Records.{RunId, RunRecord, RunDiffRecord, ArtifactRecord}
use replay_kit.Storage.Artifacts.{list_artifacts}
use replay_kit.Storage.Blob.{Env}
use replay_kit.Storage.Branches.{insert_diff, get_diff}
use replay_kit.Storage.Records.{list_spans}
use replay_kit.Storage.Runs.{allocate_id}
use replay_kit.Storage.State.{MemoryState, get_run, ensure_run_exists}

insert_diff-ok :
    (diff : RunDiffRecord) (s : MemoryState) (run other : RunRecord)
    → get diff.source_run_id s.runs ≡ some run
    → get diff.target_run_id s.runs ≡ some other
    → insert_diff diff s
      ≡ ok (record s { diffs = insert (diff.source_run_id, diff.target_run_id) diff s.diffs })
unfolding insert_diff ensure_run_exists
insert_diff-ok diff s run other r o = rw (r, o) refl

module _ (env : Env) (a b : RunId) (at : ℕ) (s : MemoryState) (run other : RunRecord)
    (artifacts others : List ArtifactRecord) where
  -- The record that is made of what is read of the two runs, under a new id.
  abbrev pub new_diff : RunDiffRecord
  new_diff =
      diff_record a b (record { run = run; spans = list_spans a s; artifacts = artifacts })
        (record { run = other; spans = list_spans b s; artifacts = others }) at
        (allocate_id IdKind.diff s).0

  -- The comparison of two runs that are recorded, with artifacts that validate, succeeds with the
  -- record made of what was read of them, `get_cached_diff` then returns that record, and no record
  -- of a run, a span or an artifact changes.
  pub diff_runs-cached :
      get a s.runs ≡ some run
      → get b s.runs ≡ some other
      → list_artifacts env a s ≡ ok artifacts
      → list_artifacts env b s ≡ ok others
      → (t : MemoryState) × (diff_runs env a b at s ≡ (ok new_diff, t))
        × (get_cached_diff a b t ≡ ok new_diff)
        × (t.runs ≡ s.runs)
        × (t.spans ≡ s.spans)
        × (t.artifacts ≡ s.artifacts)
  unfolding diff_runs get_run get_diff allocate_id diff_record ◌>>=◌ ◌>>◌
  diff_runs-cached r o l m =
      let issued = (allocate_id IdKind.diff s).1 in
      (
        record issued { diffs = insert (a, b) new_diff issued.diffs },
        rw (r, o, l, m) (rw (insert_diff-ok new_diff issued run other r o) refl),
        rw (get-insert_same (a, b) new_diff issued.diffs) refl,
        refl,
        refl,
        refl,
      )
