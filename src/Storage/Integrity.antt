-- ===== src/Storage/Integrity.antt =====
-- Referential integrity of the in-memory store: the predicate, and what it needs of a larger state.
pub mod Spans
pub mod Events
pub mod Artifacts
pub mod Forget
pub mod Aside
pub mod Calls
use replay_kit.Common.{String, true, ◌≡◌, ◌≢◌, refl, Option, none, some, List, [], In, arith}
use replay_kit.Common.Eq.{string_eq, pair_eq}
use replay_kit.Common.Map.{get}
use replay_kit.Model.Records.{
  RunId, SpanId, ArtifactId, RunRecord, SpanRecord, EventRecord, ArtifactRecord, SnapshotRecord,
  SpanEdgeRecord, RunDiffRecord,
}
use replay_kit.Storage.State.{
  MemoryState, span_at, artifact_at, snapshot_at, events_of, edges_of, has_run, has_span,
  empty_state,
}

-- A span's parent is another span of its run.
abbrev pub ParentIn : MemoryState → RunId → SpanId → Option SpanId → Type 0
ParentIn s r i none = Unit
ParentIn s r i (some p) = (p ≢ i) × (has_span s r p ≡ true)

abbrev pub SpanIn : MemoryState → RunId → Option SpanId → Type 0
SpanIn s r none = Unit
SpanIn s r (some i) = has_span s r i ≡ true

-- The artifact is recorded in the run, and belongs to the span, if one is named.
abbrev pub Attached : MemoryState → RunId → ArtifactId → Option SpanId → Type 0
Attached s r a none = (x : ArtifactRecord) × (artifact_at s r a ≡ some x)
Attached s r a (some i) = (x : ArtifactRecord) × (artifact_at s r a ≡ some x) × (x.span_id ≡ some i)

pub record SpanValid (s : MemoryState) (r : RunId) (i : SpanId) (x : SpanRecord) : Type 0 where
  pub run_key : x.run_id ≡ r
  pub key : x.span_id ≡ i
  pub run : has_run s r ≡ true
  pub parent : ParentIn s r i x.parent_span_id

pub record ArtifactValid (s : MemoryState) (r : RunId) (i : ArtifactId) (x : ArtifactRecord)
    : Type 0 where
  pub run_key : x.run_id ≡ r
  pub key : x.artifact_id ≡ i
  pub run : has_run s r ≡ true
  pub span : SpanIn s r x.span_id

pub record SnapshotValid (s : MemoryState) (r : RunId) (i : String) (x : SnapshotRecord)
    : Type 0 where
  pub run_key : x.run_id ≡ r
  pub key : x.snapshot_id ≡ i
  pub run : has_run s r ≡ true
  pub span : SpanIn s r x.span_id
  pub artifact : Attached s r x.artifact_id x.span_id

pub record EventValid (s : MemoryState) (r : RunId) (x : EventRecord) : Type 0 where
  pub run_key : x.run_id ≡ r
  pub run : has_run s r ≡ true
  pub span : has_span s r x.span_id ≡ true

pub record EdgeValid (s : MemoryState) (r : RunId) (x : SpanEdgeRecord) : Type 0 where
  pub run_key : x.run_id ≡ r
  pub run : has_run s r ≡ true
  pub from : has_span s r x.from_span_id ≡ true
  pub to : has_span s r x.to_span_id ≡ true

-- Every record lies under its own keys, in a run that exists, and what it refers to is there.
pub record IsWellFormed (s : MemoryState) : Type 0 where
  pub runs : (r : RunId) (x : RunRecord) → get r s.runs ≡ some x → x.run_id ≡ r
  pub spans : (r : RunId) (i : SpanId) (x : SpanRecord) → span_at s r i ≡ some x → SpanValid s r i x
  pub artifacts :
      (r : RunId) (i : ArtifactId) (x : ArtifactRecord)
      → artifact_at s r i ≡ some x
      → ArtifactValid s r i x
  pub snapshots :
      (r : RunId) (i : String) (x : SnapshotRecord)
      → snapshot_at s r i ≡ some x
      → SnapshotValid s r i x
  pub events : (r : RunId) (x : EventRecord) → In x (events_of s r) → EventValid s r x
  pub distinct_events :
      (r : RunId) (x y : EventRecord)
      → In x (events_of s r)
      → In y (events_of s r)
      → x.event_id ≡ y.event_id
      → x ≡ y
  pub edges : (r : RunId) (x : SpanEdgeRecord) → In x (edges_of s r) → EdgeValid s r x
  pub diffs :
      (p q : RunId) (x : RunDiffRecord)
      → get (p, q) s.diffs ≡ some x
      → (has_run s p ≡ true) × (has_run s q ≡ true)

-- For one run, `t` has what `s` has: the run, its spans, and its artifacts as they were.
pub record ExtendsAt (s t : MemoryState) (r : RunId) : Type 0 where
  pub run : has_run s r ≡ true → has_run t r ≡ true
  pub spans : (i : SpanId) → has_span s r i ≡ true → has_span t r i ≡ true
  pub artifacts :
      (i : ArtifactId) (x : ArtifactRecord)
      → artifact_at s r i ≡ some x
      → artifact_at t r i ≡ some x

abbrev pub Extends : MemoryState → MemoryState → Type 0
Extends s t = (r : RunId) → ExtendsAt s t r

module _ {s t : MemoryState} {r : RunId} (e : ExtendsAt s t r) where
  pub ParentIn-extend : (i : SpanId) (p : Option SpanId) → ParentIn s r i p → ParentIn t r i p
  ParentIn-extend i none h = tt
  ParentIn-extend i (some p) h = (h.0, e.spans p h.1)

  pub SpanIn-extend : (i : Option SpanId) → SpanIn s r i → SpanIn t r i
  SpanIn-extend none h = tt
  SpanIn-extend (some i) h = e.spans i h

  pub Attached-extend : (a : ArtifactId) (i : Option SpanId) → Attached s r a i → Attached t r a i
  Attached-extend a none (x, at) = (x, e.artifacts a x at)
  Attached-extend a (some i) (x, at, own) = (x, e.artifacts a x at, own)

  pub SpanValid-extend : {i : SpanId} {x : SpanRecord} → SpanValid s r i x → SpanValid t r i x
  SpanValid-extend {i} {x} v = record {
    run_key = v.run_key;
    key = v.key;
    run = e.run v.run;
    parent = ParentIn-extend i x.parent_span_id v.parent;
  }

  pub ArtifactValid-extend :
      {i : ArtifactId} {x : ArtifactRecord} → ArtifactValid s r i x → ArtifactValid t r i x
  ArtifactValid-extend {x = x} v = record {
    run_key = v.run_key;
    key = v.key;
    run = e.run v.run;
    span = SpanIn-extend x.span_id v.span;
  }

  pub SnapshotValid-extend :
      {i : String} {x : SnapshotRecord} → SnapshotValid s r i x → SnapshotValid t r i x
  SnapshotValid-extend {x = x} v = record {
    run_key = v.run_key;
    key = v.key;
    run = e.run v.run;
    span = SpanIn-extend x.span_id v.span;
    artifact = Attached-extend x.artifact_id x.span_id v.artifact;
  }

  pub EventValid-extend : {x : EventRecord} → EventValid s r x → EventValid t r x
  EventValid-extend {x} v = record {
    run_key = v.run_key;
    run = e.run v.run;
    span = e.spans x.span_id v.span;
  }

  pub EdgeValid-extend : {x : SpanEdgeRecord} → EdgeValid s r x → EdgeValid t r x
  EdgeValid-extend {x} v = record {
    run_key = v.run_key;
    run = e.run v.run;
    from = e.spans x.from_span_id v.from;
    to = e.spans x.to_span_id v.to;
  }
