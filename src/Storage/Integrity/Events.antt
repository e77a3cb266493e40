-- ===== src/Storage/Integrity/Events.antt =====
-- Adding an event or an edge keeps the store's integrity.
use mathlib.Core.Path.{subst}
use replay_kit.Common.{true, false, ◌≡◌, refl, sym, inl, inr, In, any, any-false, ◌∙◌, arith}
use replay_kit.Common.Eq.{◌==◌, string_eq, string_ord}
use replay_kit.Common.Result.{ok}
use replay_kit.Common.Table.{push, push_cases}
use replay_kit.Model.Records.{EventRecord, SpanEdgeRecord}
use replay_kit.Storage.Records.{insert_event, insert_edge}
use replay_kit.Storage.State.{
  MemoryState, has_run, has_span, events_of, ensure_run_exists, ensure_span_exists,
}
use replay_kit.Storage.Integrity.{
  IsWellFormed, Extends, EdgeValid, SpanValid-extend, ArtifactValid-extend, SnapshotValid-extend,
  EventValid-extend, EdgeValid-extend,
}

module _ (s : MemoryState) (event : EventRecord) where
  abbrev with_event : MemoryState
  with_event = record s { events = push event.run_id event s.events }

  with_event-Extends : Extends s with_event
  with_event-Extends = λ r. record { run = λ h. h; spans = λ i h. h; artifacts = λ i x h. h }

  record Fresh : Type 0 where
    run : has_run s event.run_id ≡ true
    span : has_span s event.run_id event.span_id ≡ true
    unused : any (λ x. x.event_id == event.event_id) (events_of s event.run_id) ≡ false

  insert_event_done : {t : MemoryState} → insert_event event s ≡ ok t → Fresh × (with_event ≡ t)
  unfolding insert_event ensure_run_exists ensure_span_exists
  insert_event_done h = ground arith

  fresh_id :
      Fresh → (x : EventRecord) → In x (events_of s event.run_id) → x.event_id ≡ event.event_id → ⊥
  fresh_id fresh x h e =
      let unlike =
        any-false (λ y. y.event_id == event.event_id) x (events_of s event.run_id) fresh.unused h in
      cc (unlike, (string_eq.equal_iff x.event_id event.event_id).1 e)

  with_event-IsWellFormed : IsWellFormed s → Fresh → IsWellFormed with_event
  with_event-IsWellFormed w fresh = record {
    runs = w.runs;
    spans = λ r i x h. SpanValid-extend (with_event-Extends r) (w.spans r i x h);
    artifacts = λ r i x h. ArtifactValid-extend (with_event-Extends r) (w.artifacts r i x h);
    snapshots = λ r i x h. SnapshotValid-extend (with_event-Extends r) (w.snapshots r i x h);
    events = λ r x h. elim (push_cases event.run_id r event s.events x h) [
      | inl new ↦ rw (new.0, new.1) (record { run_key = refl; run = fresh.run; span = fresh.span })
      | inr old ↦ EventValid-extend (with_event-Extends r) (w.events r x old)
    ];
    distinct_events = λ r x y p q e. elim (push_cases event.run_id r event s.events x p) [
      | inl new ↦ elim (push_cases event.run_id r event s.events y q) [
        | inl newer ↦ new.1 ∙ sym newer.1
        | inr old ↦ absurd (fresh_id fresh y (rw new.0 at old) (cc (new.1)))
      ]
      | inr old ↦ elim (push_cases event.run_id r event s.events y q) [
        | inl newer ↦ absurd (fresh_id fresh x (rw newer.0 at old) (cc (newer.1)))
        | inr older ↦ w.distinct_events r x y old older e
      ]
    ];
    edges = λ r x h. EdgeValid-extend (with_event-Extends r) (w.edges r x h);
    diffs = w.diffs;
  }

  pub insert_event-IsWellFormed :
      {t : MemoryState} → insert_event event s ≡ ok t → IsWellFormed s → IsWellFormed t
  insert_event-IsWellFormed h w =
      let (fresh, done) = insert_event_done h in
      subst IsWellFormed done (with_event-IsWellFormed w fresh)

module _ (s : MemoryState) (edge : SpanEdgeRecord) where
  abbrev with_edge : MemoryState
  with_edge = record s { edges = push edge.run_id edge s.edges }

  with_edge-Extends : Extends s with_edge
  with_edge-Extends = λ r. record { run = λ h. h; spans = λ i h. h; artifacts = λ i x h. h }

  insert_edge_done :
      {t : MemoryState} → insert_edge edge s ≡ ok t → EdgeValid s edge.run_id edge × (with_edge ≡ t)
  unfolding insert_edge ensure_run_exists ensure_span_exists
  insert_edge_done h = ground arith

  with_edge-IsWellFormed : IsWellFormed s → EdgeValid s edge.run_id edge → IsWellFormed with_edge
  with_edge-IsWellFormed w valid = record {
    runs = w.runs;
    spans = λ r i x h. SpanValid-extend (with_edge-Extends r) (w.spans r i x h);
    artifacts = λ r i x h. ArtifactValid-extend (with_edge-Extends r) (w.artifacts r i x h);
    snapshots = λ r i x h. SnapshotValid-extend (with_edge-Extends r) (w.snapshots r i x h);
    events = λ r x h. EventValid-extend (with_edge-Extends r) (w.events r x h);
    distinct_events = w.distinct_events;
    edges = λ r x h. elim (push_cases edge.run_id r edge s.edges x h) [
      | inl new ↦ rw (new.0, new.1) (EdgeValid-extend (with_edge-Extends edge.run_id) valid)
      | inr old ↦ EdgeValid-extend (with_edge-Extends r) (w.edges r x old)
    ];
    diffs = w.diffs;
  }

  pub insert_edge-IsWellFormed :
      {t : MemoryState} → insert_edge edge s ≡ ok t → IsWellFormed s → IsWellFormed t
  insert_edge-IsWellFormed h w =
      let (valid, done) = insert_edge_done h in
      subst IsWellFormed done (with_edge-IsWellFormed w valid)
