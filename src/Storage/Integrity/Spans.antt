-- ===== src/Storage/Integrity/Spans.antt =====
-- Writing a run or a span keeps the store's integrity.
use mathlib.Core.Path.{subst}
use replay_kit.Common.{ℕ, true, ◌≡◌, refl, inl, inr, Option, none, some, arith}
use replay_kit.Common.Eq.{string_eq, string_ord}
use replay_kit.Common.Map.{Map, insert, get-insert}
use replay_kit.Common.Result.{ok}
use replay_kit.Common.Table.{insert2, insert2_cases, insert2_keeps}
use replay_kit.Model.Records.{RunId, SpanId, RunRecord, SpanRecord}
use replay_kit.Storage.Runs.{insert_run, update_run}
use replay_kit.Storage.Records.{check_parent, upsert_span}
use replay_kit.Storage.State.{MemoryState, has_run, ensure_run_exists, ensure_span_exists}
use replay_kit.Storage.Integrity.{
  IsWellFormed, Extends, ParentIn, ParentIn-extend, SpanValid, SpanValid-extend,
  ArtifactValid-extend, SnapshotValid-extend, EventValid-extend, EdgeValid-extend,
}

-- A run put in, new or not.
module _ (s : MemoryState) (run : RunRecord) (sequences : Map RunId ℕ) where
  abbrev with_run : MemoryState
  with_run = record s { runs = insert run.run_id run s.runs; sequences = sequences }

  with_run-Extends : Extends s with_run
  with_run-Extends = λ r. record {
    run = λ h. rw get-insert (ground arith);
    spans = λ i h. h;
    artifacts = λ i x h. h;
  }

  with_run-IsWellFormed : IsWellFormed s → IsWellFormed with_run
  with_run-IsWellFormed w = record {
    runs = λ r x h.
        ground
          (arith, get-insert run.run_id r run s.runs, w.runs r x, string_eq.equal_iff run.run_id r);
    spans = λ r i x h. SpanValid-extend (with_run-Extends r) (w.spans r i x h);
    artifacts = λ r i x h. ArtifactValid-extend (with_run-Extends r) (w.artifacts r i x h);
    snapshots = λ r i x h. SnapshotValid-extend (with_run-Extends r) (w.snapshots r i x h);
    events = λ r x h. EventValid-extend (with_run-Extends r) (w.events r x h);
    distinct_events = w.distinct_events;
    edges = λ r x h. EdgeValid-extend (with_run-Extends r) (w.edges r x h);
    diffs = λ p q x h.
        let (a, b) = w.diffs p q x h in ((with_run-Extends p).run a, (with_run-Extends q).run b);
  }

-- A success of each operation: what it checked of the state before, and the state after.
insert_run_done :
    {t : MemoryState} (s : MemoryState) (run : RunRecord)
    → insert_run run s ≡ ok t
    → with_run s run (insert run.run_id 0 s.sequences) ≡ t
unfolding insert_run
insert_run_done s run h = ground arith

update_run_done :
    {t : MemoryState} (s : MemoryState) (run : RunRecord)
    → update_run run s ≡ ok t
    → with_run s run s.sequences ≡ t
unfolding update_run ensure_run_exists
update_run_done s run h = ground arith

pub insert_run-IsWellFormed :
    {t : MemoryState} (s : MemoryState) (run : RunRecord)
    → insert_run run s ≡ ok t
    → IsWellFormed s
    → IsWellFormed t
insert_run-IsWellFormed s run h w =
    subst IsWellFormed (insert_run_done s run h)
      (with_run-IsWellFormed s run (insert run.run_id 0 s.sequences) w)

pub update_run-IsWellFormed :
    {t : MemoryState} (s : MemoryState) (run : RunRecord)
    → update_run run s ≡ ok t
    → IsWellFormed s
    → IsWellFormed t
update_run-IsWellFormed s run h w =
    subst IsWellFormed (update_run_done s run h) (with_run-IsWellFormed s run s.sequences w)

-- A span put in, new or not, whose run and parent are there.
module _ (s : MemoryState) (span : SpanRecord) where
  abbrev with_span : MemoryState
  with_span = record s { spans = insert2 span.run_id span.span_id span s.spans }

  with_span-Extends : Extends s with_span
  with_span-Extends = λ r. record {
    run = λ h. h;
    spans = λ i h. insert2_keeps span.run_id r span.span_id i span s.spans h;
    artifacts = λ i x h. h;
  }

  with_span-new :
      has_run s span.run_id ≡ true
      → ParentIn s span.run_id span.span_id span.parent_span_id
      → SpanValid with_span span.run_id span.span_id span
  with_span-new run parent = record {
    run_key = refl;
    key = refl;
    run = run;
    parent =
        ParentIn-extend (with_span-Extends span.run_id) span.span_id span.parent_span_id parent;
  }

  with_span-IsWellFormed :
      IsWellFormed s
      → has_run s span.run_id ≡ true
      → ParentIn s span.run_id span.span_id span.parent_span_id
      → IsWellFormed with_span
  with_span-IsWellFormed w run parent = record {
    runs = w.runs;
    spans = λ r i x h. elim (insert2_cases span.run_id r span.span_id i span s.spans h) [
      | inl new ↦ rw (new.0, new.1, new.2) (with_span-new run parent)
      | inr old ↦ SpanValid-extend (with_span-Extends r) (w.spans r i x old)
    ];
    artifacts = λ r i x h. ArtifactValid-extend (with_span-Extends r) (w.artifacts r i x h);
    snapshots = λ r i x h. SnapshotValid-extend (with_span-Extends r) (w.snapshots r i x h);
    events = λ r x h. EventValid-extend (with_span-Extends r) (w.events r x h);
    distinct_events = w.distinct_events;
    edges = λ r x h. EdgeValid-extend (with_span-Extends r) (w.edges r x h);
    diffs = w.diffs;
  }

  upsert_span_done :
      {t : MemoryState}
      → upsert_span span s ≡ ok t
      → (has_run s span.run_id ≡ true)
        × (check_parent s span.run_id span.span_id span.parent_span_id ≡ ok tt)
        × (with_span ≡ t)
  unfolding upsert_span ensure_run_exists
  upsert_span_done h = ground arith

  check_parent_done :
      (r : RunId) (i : SpanId) (p : Option SpanId) → check_parent s r i p ≡ ok tt → ParentIn s r i p
  unfolding check_parent ensure_span_exists
  check_parent_done r i none h = tt
  check_parent_done r i (some p) h = ground (arith, string_eq.equal_iff p i)

  pub upsert_span-IsWellFormed :
      {t : MemoryState} → upsert_span span s ≡ ok t → IsWellFormed s → IsWellFormed t
  upsert_span-IsWellFormed h w =
      let (run, parent, done) = upsert_span_done h in
      subst IsWellFormed done (
        with_span-IsWellFormed w run
          (check_parent_done span.run_id span.span_id span.parent_span_id parent))
