-- ===== src/Replay/Dirty/Spec.antt =====
-- When one span makes another dirty, and the spans that a fork span reaches so.
use mathlib.Core.Path.{subst}
use replay_kit.Common.{◌≡◌, refl, sym, ◌⊎◌, ◌↔◌, inl, inr, Option, none, some, List, [], ◌∷◌, In}
use replay_kit.Common.Eq.{◌==◌, string_eq, string_ord}
use replay_kit.Common.Map.{get, get-nil}
use replay_kit.Common.Table.{push_cases, push_keeps, push_new, or_empty}
use replay_kit.Common.Tests.{Bool-cases}
use replay_kit.Model.Enums.{EdgeKind, edge_kind_eq}
use replay_kit.Model.Records.{SpanId, SpanRecord, SpanEdgeRecord}
use replay_kit.Replay.Dirty.{Successors, add_child, children_from, add_dependent, dependents_from}

-- A recorded edge says that `b` needs the data of `a`.
pub record DataEdge (edges : List SpanEdgeRecord) (a b : SpanId) : Type 0 where
  pub edge : SpanEdgeRecord
  pub recorded : In edge edges
  pub data_kind : edge.kind ≡ EdgeKind.data_depends_on
  pub source : edge.to_span_id ≡ a
  pub target : edge.from_span_id ≡ b

-- A recorded span `b` has the parent `a`.
pub record ChildOf (spans : List SpanRecord) (a b : SpanId) : Type 0 where
  pub span : SpanRecord
  pub recorded : In span spans
  pub parent : span.parent_span_id ≡ some a
  pub child : span.span_id ≡ b

-- A change of `a` reaches `b` at once.
abbrev pub Affects : List SpanRecord → List SpanEdgeRecord → SpanId → SpanId → Type 0
Affects spans edges a b = DataEdge edges a b ⊎ ChildOf spans a b

pub data Reach (spans : List SpanRecord) (edges : List SpanEdgeRecord) (fork : SpanId)
    : SpanId → Type 0 where
  here : Reach spans edges fork fork
  step :
      {a b : SpanId} → Reach spans edges fork a → Affects spans edges a b → Reach spans edges fork b

abbrev pub next : Successors → SpanId → List SpanId
next m a = or_empty (get a m)

-- What the fold over the edges collects.
module _ (a b : SpanId) where
  DataEdge-later :
      {edges : List SpanEdgeRecord} (e : SpanEdgeRecord)
      → DataEdge edges a b
      → DataEdge (e ∷ edges) a b
  DataEdge-later e d = record {
    edge = d.edge;
    recorded = inr d.recorded;
    data_kind = d.data_kind;
    source = d.source;
    target = d.target;
  }

  add_dependent_cases :
      (acc : Successors) (e : SpanEdgeRecord)
      → In b (next (add_dependent acc e) a)
      → In b (next acc a)
        ⊎ ((e.kind ≡ EdgeKind.data_depends_on) × (e.to_span_id ≡ a) × (e.from_span_id ≡ b))
  unfolding add_dependent
  add_dependent_cases acc e h = elim (Bool-cases (e.kind == EdgeKind.data_depends_on)) [
    | inl t ↦ elim (push_cases e.to_span_id a e.from_span_id acc b (rw (t, add_dependent) at h)) [
      | inl new ↦
          inr ((edge_kind_eq.equal_iff e.kind EdgeKind.data_depends_on).0 t, sym new.0, sym new.1)
      | inr old ↦ inl old
    ]
    | inr f ↦ inl (rw (f, add_dependent) at h)
  ]

  pub dependents_sound :
      (acc : Successors) (edges : List SpanEdgeRecord)
      → In b (next (dependents_from acc edges) a)
      → In b (next acc a) ⊎ DataEdge edges a b
  unfolding dependents_from
  dependents_sound acc [] h = inl h
  dependents_sound acc (e ∷ edges) h = elim (dependents_sound (add_dependent acc e) edges h) [
    | inl early ↦ elim (add_dependent_cases acc e early) [
      | inl old ↦ inl old
      | inr new ↦ inr (record {
        edge = e;
        recorded = inl refl;
        data_kind = new.0;
        source = new.1;
        target = new.2;
      })
    ]
    | inr late ↦ inr (DataEdge-later e late)
  ]

  add_dependent_keeps :
      (acc : Successors) (e : SpanEdgeRecord)
      → In b (next acc a)
      → In b (next (add_dependent acc e) a)
  unfolding add_dependent
  add_dependent_keeps acc e h = elim (Bool-cases (e.kind == EdgeKind.data_depends_on)) [
    | inl t ↦ rw (t, add_dependent) (push_keeps e.to_span_id a e.from_span_id acc b h)
    | inr f ↦ rw (f, add_dependent) h
  ]

  dependents_keep :
      (acc : Successors) (edges : List SpanEdgeRecord)
      → In b (next acc a)
      → In b (next (dependents_from acc edges) a)
  unfolding dependents_from
  dependents_keep acc [] h = h
  dependents_keep acc (e ∷ edges) h =
      dependents_keep (add_dependent acc e) edges (add_dependent_keeps acc e h)

  add_dependent_new :
      (acc : Successors) (e : SpanEdgeRecord)
      → e.kind ≡ EdgeKind.data_depends_on
      → e.to_span_id ≡ a
      → e.from_span_id ≡ b
      → In b (next (add_dependent acc e) a)
  unfolding add_dependent
  add_dependent_new acc e k s t =
      rw ((edge_kind_eq.equal_iff e.kind EdgeKind.data_depends_on).1 k, add_dependent)
        (rw (← s, ← t) (push_new e.to_span_id e.from_span_id acc))

  dependents-In :
      (acc : Successors) (edges : List SpanEdgeRecord) (e : SpanEdgeRecord)
      → In e edges
      → e.kind ≡ EdgeKind.data_depends_on
      → e.to_span_id ≡ a
      → e.from_span_id ≡ b
      → In b (next (dependents_from acc edges) a)
  unfolding dependents_from
  dependents-In acc [] e h k s t = absurd h
  dependents-In acc (f ∷ edges) e (inl same) k s t =
      dependents_keep (add_dependent acc f) edges
        (subst (λ g. In b (next (add_dependent acc g) a)) same (add_dependent_new acc e k s t))
  dependents-In acc (f ∷ edges) e (inr h) k s t =
      dependents-In (add_dependent acc f) edges e h k s t

  -- What the fold over the spans collects.
  ChildOf-later :
      {spans : List SpanRecord} (x : SpanRecord) → ChildOf spans a b → ChildOf (x ∷ spans) a b
  ChildOf-later x d = record {
    span = d.span;
    recorded = inr d.recorded;
    parent = d.parent;
    child = d.child;
  }

  add_child_cases :
      (acc : Successors) (i : SpanId) (p : Option SpanId)
      → In b (next (add_child acc i p) a)
      → In b (next acc a) ⊎ ((p ≡ some a) × (i ≡ b))
  unfolding add_child
  add_child_cases acc i none h = inl h
  add_child_cases acc i (some p) h = elim (push_cases p a i acc b h) [
    | inl new ↦ inr (cc (new.0), sym new.1)
    | inr old ↦ inl old
  ]

  pub children_sound :
      (acc : Successors) (spans : List SpanRecord)
      → In b (next (children_from acc spans) a)
      → In b (next acc a) ⊎ ChildOf spans a b
  unfolding children_from
  children_sound acc [] h = inl h
  children_sound acc (x ∷ spans) h =
      elim (children_sound (add_child acc x.span_id x.parent_span_id) spans h) [
        | inl early ↦ elim (add_child_cases acc x.span_id x.parent_span_id early) [
          | inl old ↦ inl old
          | inr new ↦ inr (record { span = x; recorded = inl refl; parent = new.0; child = new.1 })
        ]
        | inr late ↦ inr (ChildOf-later x late)
      ]

  add_child_keeps :
      (acc : Successors) (i : SpanId) (p : Option SpanId)
      → In b (next acc a)
      → In b (next (add_child acc i p) a)
  unfolding add_child
  add_child_keeps acc i none h = h
  add_child_keeps acc i (some p) h = push_keeps p a i acc b h

  children_keep :
      (acc : Successors) (spans : List SpanRecord)
      → In b (next acc a)
      → In b (next (children_from acc spans) a)
  unfolding children_from
  children_keep acc [] h = h
  children_keep acc (x ∷ spans) h =
      children_keep (add_child acc x.span_id x.parent_span_id) spans
        (add_child_keeps acc x.span_id x.parent_span_id h)

  children-In :
      (acc : Successors) (spans : List SpanRecord) (x : SpanRecord)
      → In x spans
      → x.parent_span_id ≡ some a
      → x.span_id ≡ b
      → In b (next (children_from acc spans) a)
  unfolding children_from add_child
  children-In acc [] x h p c = absurd h
  children-In acc (y ∷ spans) x (inl same) p c =
      children_keep (add_child acc y.span_id y.parent_span_id) spans (
        subst (λ g. In b (next (add_child acc g.span_id g.parent_span_id) a)) same
          (rw (p, ← c, add_child) (push_new a x.span_id acc)))
  children-In acc (y ∷ spans) x (inr h) p c =
      children-In (add_child acc y.span_id y.parent_span_id) spans x h p c

-- The two maps hold exactly what affects what.
module _ (spans : List SpanRecord) (edges : List SpanEdgeRecord) (a b : SpanId) where
  pub dependents_exact : In b (next (dependents_from [] edges) a) ↔ DataEdge edges a b
  dependents_exact = (
    λ h. elim (dependents_sound a b [] edges h) [
      | inl early ↦ absurd (rw (get-nil {V = List SpanId} a) at early)
      | inr d ↦ d
    ],
    λ d. dependents-In a b [] edges d.edge d.recorded d.data_kind d.source d.target,
  )

  pub children_exact : In b (next (children_from [] spans) a) ↔ ChildOf spans a b
  children_exact = (
    λ h. elim (children_sound a b [] spans h) [
      | inl early ↦ absurd (rw (get-nil {V = List SpanId} a) at early)
      | inr d ↦ d
    ],
    λ d. children-In a b [] spans d.span d.recorded d.parent d.child,
  )
