-- ===== src/Storage/Integrity/Artifacts.antt =====
-- Adding an artifact or a snapshot keeps the store's integrity.
use mathlib.Core.Path.{subst}
use replay_kit.Common.{true, false, ◌≡◌, refl, inl, inr, Option, none, some, arith}
use replay_kit.Common.Eq.{string_eq, string_ord}
use replay_kit.Common.Map.{is_some}
use replay_kit.Common.Result.{ok}
use replay_kit.Common.Table.{insert2, get2-insert2, insert2_cases}
use replay_kit.Model.Records.{RunId, SpanId, ArtifactId, ArtifactRecord, SnapshotRecord}
use replay_kit.Storage.Artifacts.{insert_artifact}
use replay_kit.Storage.Blob.{Env}
use replay_kit.Storage.Records.{insert_snapshot, check_snapshot_span}
use replay_kit.Storage.State.{
  MemoryState, has_run, artifact_at, ensure_run_exists, ensure_optional_span, ensure_attached,
  get_artifact,
}
use replay_kit.Storage.Integrity.{
  IsWellFormed, Extends, SpanIn, SpanIn-extend, Attached, SnapshotValid, SpanValid-extend,
  ArtifactValid-extend, SnapshotValid-extend, EventValid-extend, EdgeValid-extend,
}

optional_span_done :
    (s : MemoryState) (r : RunId) (i : Option SpanId)
    → ensure_optional_span s r i ≡ ok tt
    → SpanIn s r i
unfolding ensure_optional_span
optional_span_done s r none h = tt
optional_span_done s r (some i) h = ground arith

module _ (env : Env) (s : MemoryState) (artifact : ArtifactRecord) where
  abbrev with_artifact : MemoryState
  with_artifact = record s {
    artifacts = insert2 artifact.run_id artifact.artifact_id artifact s.artifacts;
  }

  record Accepted : Type 0 where
    run : has_run s artifact.run_id ≡ true
    span : ensure_optional_span s artifact.run_id artifact.span_id ≡ ok tt
    unused : is_some (artifact_at s artifact.run_id artifact.artifact_id) ≡ false

  insert_artifact_done :
      {t : MemoryState} → insert_artifact env artifact s ≡ ok t → Accepted × (with_artifact ≡ t)
  unfolding insert_artifact ensure_run_exists
  insert_artifact_done h = ground arith

  -- An artifact is never replaced: the one put in has an id that its run does not use.
  with_artifact-Extends : Accepted → Extends s with_artifact
  with_artifact-Extends a = λ r. record {
    run = λ h. h;
    spans = λ i h. h;
    artifacts = λ i x h. ground (
      arith,
      a.unused,
      get2-insert2 artifact.run_id r artifact.artifact_id i artifact s.artifacts,
      string_eq.equal_iff artifact.run_id r,
      string_eq.equal_iff artifact.artifact_id i,
    );
  }

  with_artifact-IsWellFormed : Accepted → IsWellFormed s → IsWellFormed with_artifact
  with_artifact-IsWellFormed a w =
      let more = with_artifact-Extends a in
      record {
        runs = w.runs;
        spans = λ r i x h. SpanValid-extend (more r) (w.spans r i x h);
        artifacts = λ r i x h.
            elim (insert2_cases artifact.run_id r artifact.artifact_id i artifact s.artifacts h) [
              | inl new ↦
                  rw (new.0, new.1, new.2)
                    (record {
                      run_key = refl;
                      key = refl;
                      run = a.run;
                      span =
                          SpanIn-extend (more artifact.run_id) artifact.span_id
                            (optional_span_done s artifact.run_id artifact.span_id a.span);
                    })
              | inr old ↦ ArtifactValid-extend (more r) (w.artifacts r i x old)
            ];
        snapshots = λ r i x h. SnapshotValid-extend (more r) (w.snapshots r i x h);
        events = λ r x h. EventValid-extend (more r) (w.events r x h);
        distinct_events = w.distinct_events;
        edges = λ r x h. EdgeValid-extend (more r) (w.edges r x h);
        diffs = w.diffs;
      }

  pub insert_artifact-IsWellFormed :
      {t : MemoryState} → insert_artifact env artifact s ≡ ok t → IsWellFormed s → IsWellFormed t
  insert_artifact-IsWellFormed h w =
      let (accepted, done) = insert_artifact_done h in
      subst IsWellFormed done (with_artifact-IsWellFormed accepted w)

-- What the checks of `insert_snapshot` establish of the artifact.
Attached-done :
    (env : Env) (s : MemoryState) (r : RunId) (a : ArtifactId) (i : Option SpanId)
    (x : ArtifactRecord)
    → get_artifact env r a s ≡ ok x
    → check_snapshot_span i x ≡ ok tt
    → Attached s r a i
unfolding get_artifact check_snapshot_span ensure_attached
Attached-done env s r a none x h k = (x, ground arith)
Attached-done env s r a (some i) x h k = (x, ground arith, owner x.span_id i k)
  where
    owner :
        (o : Option SpanId) (i : SpanId)
        → ensure_attached o x.artifact_id i "snapshot artifact" ≡ ok tt
        → o ≡ some i
    owner none i k = cc
    owner (some o) i k = ground (arith, string_eq.equal_iff o i)

module _ (env : Env) (s : MemoryState) (snapshot : SnapshotRecord) where
  abbrev with_snapshot : MemoryState
  with_snapshot = record s {
    snapshots = insert2 snapshot.run_id snapshot.snapshot_id snapshot s.snapshots;
  }

  with_snapshot-Extends : Extends s with_snapshot
  with_snapshot-Extends = λ r. record { run = λ h. h; spans = λ i h. h; artifacts = λ i x h. h }

  insert_snapshot_done :
      {t : MemoryState}
      → insert_snapshot env snapshot s ≡ ok t
      → (x : ArtifactRecord) × (has_run s snapshot.run_id ≡ true)
        × (ensure_optional_span s snapshot.run_id snapshot.span_id ≡ ok tt)
        × (get_artifact env snapshot.run_id snapshot.artifact_id s ≡ ok x)
        × (check_snapshot_span snapshot.span_id x ≡ ok tt)
        × (with_snapshot ≡ t)
  unfolding insert_snapshot ensure_run_exists
  insert_snapshot_done h = ground arith

  with_snapshot-IsWellFormed :
      IsWellFormed s
      → SnapshotValid s snapshot.run_id snapshot.snapshot_id snapshot
      → IsWellFormed with_snapshot
  with_snapshot-IsWellFormed w valid = record {
    runs = w.runs;
    spans = λ r i x h. SpanValid-extend (with_snapshot-Extends r) (w.spans r i x h);
    artifacts = λ r i x h. ArtifactValid-extend (with_snapshot-Extends r) (w.artifacts r i x h);
    snapshots = λ r i x h.
        elim (insert2_cases snapshot.run_id r snapshot.snapshot_id i snapshot s.snapshots h) [
          | inl new ↦
              rw (new.0, new.1, new.2)
                (SnapshotValid-extend (with_snapshot-Extends snapshot.run_id) valid)
          | inr old ↦ SnapshotValid-extend (with_snapshot-Extends r) (w.snapshots r i x old)
        ];
    events = λ r x h. EventValid-extend (with_snapshot-Extends r) (w.events r x h);
    distinct_events = w.distinct_events;
    edges = λ r x h. EdgeValid-extend (with_snapshot-Extends r) (w.edges r x h);
    diffs = w.diffs;
  }

  pub insert_snapshot-IsWellFormed :
      {t : MemoryState} → insert_snapshot env snapshot s ≡ ok t → IsWellFormed s → IsWellFormed t
  insert_snapshot-IsWellFormed h w =
      let (x, run, span, found, own, done) = insert_snapshot_done h in
      subst IsWellFormed done (
        with_snapshot-IsWellFormed w (record {
          run_key = refl;
          key = refl;
          run = run;
          span = optional_span_done s snapshot.run_id snapshot.span_id span;
          artifact =
              Attached-done env s snapshot.run_id snapshot.artifact_id snapshot.span_id x found own;
        }))
