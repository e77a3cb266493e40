-- ===== src/Replay/Dirty/Exact.antt =====
-- The dirty map is exact: which spans are in it, and which spans each record names.
use replay_kit.Common.{
  ◌+◌, ◌≤◌, true, ◌≡◌, refl, ap, suc, ◌↔◌, inl, inr, some, none, Option, List, [], ◌∷◌, ◌++◌, In,
  In-append_left, In-append_right, length, length-append, map, arith,
}
use replay_kit.Common.Eq.{string_eq, string_ord, ◌==◌}
use replay_kit.Common.Map.{Map, get, get-insert, get-nil, contains_key, is_some}
use replay_kit.Common.Tests.{if◌then◌else◌, Bool-cases}
use replay_kit.Model.Enums.{patched_input}
use replay_kit.Model.Records.{SpanId, SpanRecord, SpanEdgeRecord, DirtySpanRecord}
use replay_kit.Replay.Dirty.{Successors, children_from, dependents_from, start, compute_dirty_map}
use replay_kit.Replay.Dirty.Grew.{work, unseen}
use replay_kit.Replay.Dirty.Loop.{Edge, PathFrom, Inv, loop_ends}
use replay_kit.Replay.Dirty.Push.{Dirty, Triggered, TriggeredIn}
use replay_kit.Replay.Dirty.Spec.{Affects, Reach, here, step, dependents_exact, children_exact}

In-map : {A B : Type 0} (f : A → B) (x : A) (xs : List A) → In x xs → In (f x) (map f xs)
In-map f x [] h = absurd h
In-map f x (y ∷ xs) (inl e) = inl (ap f e)
In-map f x (y ∷ xs) (inr h) = inr (In-map f x xs h)

length-map : {A B : Type 0} (f : A → B) (xs : List A) → length (map f xs) ≡ length xs
length-map f [] = refl
length-map f (x ∷ xs) = ap suc (length-map f xs)

unseen-le : (ids : List SpanId) (m : Map SpanId DirtySpanRecord) → unseen ids m ≤ length ids
unseen-le [] m = omega arith
unseen-le (x ∷ xs) m = ground (arith, unseen-le xs m)

module _ (fork : SpanId) (spans : List SpanRecord) (edges : List SpanEdgeRecord) where
  abbrev children : Successors
  children = children_from [] spans

  abbrev dependents : Successors
  dependents = dependents_from [] edges

  -- The ids that can be pushed.
  ids : List SpanId
  ids = map (λ span. span.span_id) spans ++ map (λ edge. edge.from_span_id) edges

  to_affects : (a b : SpanId) → Edge children dependents fork a b → Affects spans edges a b
  to_affects a b (inl d) = inl ((dependents_exact spans edges a b).0 d)
  to_affects a b (inr c) = inr ((children_exact spans edges a b).0 c)

  of_Affects : (a b : SpanId) → Affects spans edges a b → Edge children dependents fork a b
  of_Affects a b (inl d) = inl ((dependents_exact spans edges a b).1 d)
  of_Affects a b (inr c) = inr ((children_exact spans edges a b).1 c)

  affected-In_ids : (a b : SpanId) → Affects spans edges a b → In b ids
  unfolding ids
  affected-In_ids a b (inl d) = rw (← d.target) (
      In-append_right _ (map (λ span. span.span_id) spans) (map (λ edge. edge.from_span_id) edges)
        (In-map (λ edge. edge.from_span_id) d.edge edges d.recorded))
  affected-In_ids a b (inr c) = rw (← c.child) (
      In-append_left _ (map (λ span. span.span_id) spans) (map (λ edge. edge.from_span_id) edges)
        (In-map (λ span. span.span_id) c.span spans c.recorded))

  length-ids : length ids ≡ length spans + length edges
  unfolding ids
  length-ids = omega (
    arith,
    length-append (map (λ span. span.span_id) spans) (map (λ edge. edge.from_span_id) edges),
    length-map (λ span. span.span_id) spans,
    length-map (λ edge. edge.from_span_id) edges,
  )

  -- At the start only the fork span is dirty, and nothing triggered it.
  get-start :
      (y : SpanId)
      → get y (start fork).dirty ≡ (
          if fork == y
          then some (record { span_id = fork; reasons = patched_input ∷ []; triggered_by = [] })
          else none)
  unfolding start
  get-start y = rw (get-insert fork y, get-nil)

  only_fork : (y : SpanId) → Dirty (start fork) y ↔ (y ≡ fork)
  only_fork y = ground (arith, get-start y, string_eq.equal_iff fork y)

  no_trigger : (y u : SpanId) → Triggered (start fork) y u → ⊥
  no_trigger y u h = elim (Bool-cases (fork == y)) [
    | inl t ↦ absurd (rw (get-start y, t) at h)
    | inr f ↦ absurd (rw (get-start y, f) at h)
  ]

  start-Inv : Inv children dependents fork (start fork)
  unfolding start
  start-Inv = record {
    source = (only_fork fork).1 refl;
    queued = λ y h. elim h [ inl e ↦ (only_fork y).1 e | inr none_left ↦ absurd none_left ];
    sound = λ y h. rw ((only_fork y).0 h) PathFrom.here;
    triggers = λ y u h. absurd (no_trigger y u h);
    closed = λ u v d e. inl (inl ((only_fork u).0 d));
  }

  work-start : work ids (start fork) ≤ length spans + length edges + 1
  unfolding start
  work-start = omega (arith, unseen-le ids (start fork).dirty, length-ids)

  -- The search returns a map, and the invariant holds of it.
  dirty_map_ends :
      (m : Map SpanId DirtySpanRecord) × (compute_dirty_map fork spans edges ≡ some m)
      × Inv children dependents fork (record { dirty = m; queue = [] })
  unfolding compute_dirty_map
  dirty_map_ends =
      loop_ends children dependents fork ids (λ a b e. affected-In_ids a b (to_affects a b e))
        (length spans + length edges + 1) (start fork) start-Inv work-start

  sound_path : (y : SpanId) → PathFrom children dependents fork y → Reach spans edges fork y
  sound_path y PathFrom.here = here
  sound_path y (PathFrom.step {a} p e) = step (sound_path a p) (to_affects a y e)

module _ (fork : SpanId) (spans : List SpanRecord) (edges : List SpanEdgeRecord)
    (m : Map SpanId DirtySpanRecord)
    (inv : Inv
      (children_from [] spans)
      (dependents_from [] edges)
      fork
      (record { dirty = m; queue = [] })) where
  -- What a dirty span affects names it as a trigger, as the queue is empty.
  closed_end :
      (u v : SpanId) → contains_key u m ≡ true → Affects spans edges u v → TriggeredIn (get v m) u
  closed_end u v d a = elim (inv.closed u v d (of_Affects fork spans edges u v a)) [
    | inl waiting ↦ absurd waiting
    | inr t ↦ t
  ]

  dirty_of_trigger : (o : Option DirtySpanRecord) (u : SpanId) → TriggeredIn o u → is_some o ≡ true
  dirty_of_trigger none u h = absurd h
  dirty_of_trigger (some rec) u h = refl

  complete_path : (y : SpanId) → Reach spans edges fork y → contains_key y m ≡ true
  complete_path y here = inv.source
  complete_path y (step {a} p e) =
      dirty_of_trigger (get y m) a (closed_end a y (complete_path a p) e)

-- The search for the dirty spans returns a map, whatever the spans and edges, and a span is in it
-- exactly if the fork span reaches it by steps from a span to one that depends on its data or is
-- its child.
pub compute_dirty_map-Reach :
    (fork : SpanId) (spans : List SpanRecord) (edges : List SpanEdgeRecord)
    → (m : Map SpanId DirtySpanRecord) × (compute_dirty_map fork spans edges ≡ some m)
      × ((x : SpanId) → (contains_key x m ≡ true) ↔ Reach spans edges fork x)
compute_dirty_map-Reach fork spans edges =
    let (m, ends, inv) = dirty_map_ends fork spans edges in
    (
      m,
      ends,
      λ x. (
        λ d. sound_path fork spans edges x (inv.sound x d),
        complete_path fork spans edges m inv x,
      ),
    )

-- In the map that the search returns, the record of a span lists as its triggers exactly the dirty
-- spans that it depends on for data or is a child of.
pub compute_dirty_map-triggers :
    (fork : SpanId) (spans : List SpanRecord) (edges : List SpanEdgeRecord)
    → (m : Map SpanId DirtySpanRecord) × (compute_dirty_map fork spans edges ≡ some m)
      × ((x t : SpanId)
          → TriggeredIn (get x m) t ↔ ((contains_key t m ≡ true) × Affects spans edges t x))
compute_dirty_map-triggers fork spans edges =
    let (m, ends, inv) = dirty_map_ends fork spans edges in
    (
      m,
      ends,
      λ x t. (
        λ h. let (d, e) = inv.triggers x t h in (d, to_affects fork spans edges t x e),
        λ h. closed_end fork spans edges m inv t x h.0 h.1,
      ),
    )
