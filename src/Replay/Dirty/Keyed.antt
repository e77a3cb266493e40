-- ===== src/Replay/Dirty/Keyed.antt =====
-- In the map that the search for the dirty spans returns, every record stands under its own span.
use mathlib.Core.Path.{subst}
use replay_kit.Common.{
  ℕ, zero, suc, true, some, List, [], ◌∷◌, ◌≡◌, refl, sym, ap, ◌∙◌, In, inl, inr, member, map,
  arith, member_of_In, In-of_member,
}
use replay_kit.Common.Eq.{◌==◌, string_eq, string_ord, string_lt}
use replay_kit.Common.Map.{Map, get, insert, values, contains_key}
use replay_kit.Common.Order.{get-In}
use replay_kit.Common.Sort.{sort_by_key, sort-In, In-sort}
use replay_kit.Common.Table.{or_empty}
use replay_kit.Common.Tests.{Bool-cases, Option-cases, List-cases}
use replay_kit.Model.Enums.{DirtyReason, upstream_output_changed, dependency_unknown}
use replay_kit.Model.Records.{SpanId, SpanRecord, SpanEdgeRecord, DirtySpanRecord}
use replay_kit.Replay.Dirty.{
  Search, Successors, push_dirty, once_more, newly_dirty, push_dependents, push_child,
  push_children, expand, loop, start, compute_dirty_map,
}

abbrev pub Dirty : Type 0
Dirty = Map SpanId DirtySpanRecord

abbrev pub IsKeyed : Dirty → Type 0
IsKeyed [] = Unit
IsKeyed ((k, e) ∷ m) = (e.span_id ≡ k) × IsKeyed m

insert-IsKeyed :
    (k : SpanId) (e : DirtySpanRecord) (m : Dirty)
    → e.span_id ≡ k
    → IsKeyed m
    → IsKeyed (insert k e m)
unfolding insert
insert-IsKeyed k e [] h a = (h, tt)
insert-IsKeyed k e ((j, w) ∷ m) h a = elim (Bool-cases (j == k)) [
  | inl t ↦ rw t (h, a.1)
  | inr f ↦ elim (Bool-cases (string_lt k j)) [
    | inl less ↦ rw (f, less) (h, a)
    | inr more ↦ rw (f, more) (a.0, insert-IsKeyed k e m h a.1)
  ]
]

In-IsKeyed :
    (k : SpanId) (e : DirtySpanRecord) (m : Dirty) → IsKeyed m → In (k, e) m → e.span_id ≡ k
In-IsKeyed k e [] a h = absurd h
In-IsKeyed k e ((j, w) ∷ m) a (inl q) = cc (a.0, ap (λ p. p.0) q, ap (λ p. p.1) q)
In-IsKeyed k e ((j, w) ∷ m) a (inr h) = In-IsKeyed k e m a.1 h

push_dirty-IsKeyed :
    (id : SpanId) (reason : DirtyReason) (by : SpanId) (s : Search)
    → IsKeyed s.dirty
    → IsKeyed (push_dirty id reason by s).dirty
unfolding push_dirty once_more newly_dirty
push_dirty-IsKeyed id reason by s a = elim (Option-cases (get id s.dirty)) [
  | inl miss ↦ rw (push_dirty, miss) (insert-IsKeyed id _ s.dirty refl a)
  | inr (e, found) ↦
      rw (push_dirty, found)
        (insert-IsKeyed id _ s.dirty (In-IsKeyed id e s.dirty a (get-In id e s.dirty found)) a)
]

push_dependents-IsKeyed :
    (current : SpanId) (ids : List SpanId) (s : Search)
    → IsKeyed s.dirty
    → IsKeyed (push_dependents current ids s).dirty
unfolding push_dependents
push_dependents-IsKeyed current [] s a = a
push_dependents-IsKeyed current (id ∷ ids) s a =
    push_dependents-IsKeyed current ids (push_dirty id upstream_output_changed current s)
      (push_dirty-IsKeyed id upstream_output_changed current s a)

push_child-IsKeyed :
    (current : SpanId) (dependents : List SpanId) (child : SpanId) (s : Search)
    → IsKeyed s.dirty
    → IsKeyed (push_child current dependents child s).dirty
unfolding push_child
push_child-IsKeyed current dependents child s a = elim (Bool-cases (member child dependents)) [
  | inl t ↦ rw (push_child, t) a
  | inr f ↦ rw (push_child, f) (push_dirty-IsKeyed child dependency_unknown current s a)
]

push_children-IsKeyed :
    (current : SpanId) (dependents ids : List SpanId) (s : Search)
    → IsKeyed s.dirty
    → IsKeyed (push_children current dependents ids s).dirty
unfolding push_children
push_children-IsKeyed current dependents [] s a = a
push_children-IsKeyed current dependents (id ∷ ids) s a =
    push_children-IsKeyed current dependents ids (push_child current dependents id s)
      (push_child-IsKeyed current dependents id s a)

module _ (children dependents : Successors) where
  expand-IsKeyed :
      (current : SpanId) (s : Search)
      → IsKeyed s.dirty
      → IsKeyed (expand children dependents current s).dirty
  unfolding expand
  expand-IsKeyed current s a =
      let next = or_empty (get current dependents) in
      push_children-IsKeyed current next (or_empty (get current children))
        (push_dependents current next s) (push_dependents-IsKeyed current next s a)

  loop-IsKeyed :
      (fuel : ℕ) (s : Search) {dirty : Dirty}
      → IsKeyed s.dirty
      → loop children dependents fuel s ≡ some dirty
      → IsKeyed dirty
  unfolding loop
  loop-IsKeyed zero s {dirty} a h = elim (List-cases s.queue) [
    | inl e ↦ let q : s.dirty ≡ dirty = ground (arith, (rw (loop, e) at h)) in subst IsKeyed q a
    | inr (x, xs, e) ↦ cc (rw (loop, e) at h)
  ]
  loop-IsKeyed (suc fuel) s {dirty} a h = elim (List-cases s.queue) [
    | inl e ↦ let q : s.dirty ≡ dirty = ground (arith, (rw (loop, e) at h)) in subst IsKeyed q a
    | inr (current, rest, e) ↦
        let popped : Search = record s { queue = rest } in
        loop-IsKeyed fuel (expand children dependents current popped)
          (expand-IsKeyed current popped a) (rw (loop, e) at h)
  ]

compute_dirty_map-IsKeyed :
    (fork_span_id : SpanId) (spans : List SpanRecord) (edges : List SpanEdgeRecord) {dirty : Dirty}
    → compute_dirty_map fork_span_id spans edges ≡ some dirty
    → IsKeyed dirty
unfolding compute_dirty_map start
compute_dirty_map-IsKeyed fork_span_id spans edges h =
    loop-IsKeyed _ _ _ (start fork_span_id) (insert-IsKeyed fork_span_id _ [] refl tt) h

In-values : (e : DirtySpanRecord) (m : Dirty) → In e (values m) → (k : SpanId) × In (k, e) m
In-values e [] h = absurd h
In-values e ((j, w) ∷ m) (inl q) = (j, inl (ap (λ x. (j, x)) q))
In-values e ((j, w) ∷ m) (inr h) = let (k, n) = In-values e m h in (k, inr n)

values-In : (k : SpanId) (e : DirtySpanRecord) (m : Dirty) → In (k, e) m → In e (values m)
values-In k e [] h = absurd h
values-In k e ((j, w) ∷ m) (inl q) = inl (ap (λ p. p.1) q)
values-In k e ((j, w) ∷ m) (inr h) = inr (values-In k e m h)

In-contains : (k : SpanId) (e : DirtySpanRecord) (m : Dirty) → In (k, e) m → contains_key k m ≡ true
unfolding get
In-contains k e [] h = absurd h
In-contains k e ((j, w) ∷ m) (inl q) = rw ((string_eq.equal_iff j k).1 (sym (ap (λ p. p.0) q))) refl
In-contains k e ((j, w) ∷ m) (inr h) = elim (Bool-cases (j == k)) [
  | inl t ↦ rw t refl
  | inr f ↦ rw f (In-contains k e m h)
]

abbrev pub dirty_ids : List DirtySpanRecord → List SpanId
dirty_ids = map (λ e. e.span_id)

In-dirty_ids :
    (id : SpanId) (entries : List DirtySpanRecord)
    → In id (dirty_ids entries)
    → (e : DirtySpanRecord) × In e entries × (e.span_id ≡ id)
In-dirty_ids id [] h = absurd h
In-dirty_ids id (x ∷ entries) (inl q) = (x, inl refl, sym q)
In-dirty_ids id (x ∷ entries) (inr h) = let (e, m, q) = In-dirty_ids id entries h in (e, inr m, q)

dirty_ids-In :
    (e : DirtySpanRecord) (entries : List DirtySpanRecord)
    → In e entries
    → In e.span_id (dirty_ids entries)
dirty_ids-In e [] h = absurd h
dirty_ids-In e (x ∷ entries) (inl q) = inl (ap (λ y. y.span_id) q)
dirty_ids-In e (x ∷ entries) (inr h) = inr (dirty_ids-In e entries h)

-- The spans of the map that the search returns are those of its records, however these are sorted.
pub compute_dirty_map-dirty_ids :
    (fork_span_id : SpanId) (spans : List SpanRecord) (edges : List SpanEdgeRecord) (dirty : Dirty)
    (key : DirtySpanRecord → ℕ) (id : SpanId)
    → compute_dirty_map fork_span_id spans edges ≡ some dirty
    → contains_key id dirty ≡ member id (dirty_ids (sort_by_key key (values dirty)))
compute_dirty_map-dirty_ids fork_span_id spans edges dirty key id h =
    let keyed = compute_dirty_map-IsKeyed fork_span_id spans edges h in
    let entries = sort_by_key key (values dirty) in
    elim (Bool-cases (contains_key id dirty)) [
      | inl t ↦ elim (Option-cases (get id dirty)) [
        | inl miss ↦ cc (rw miss at t)
        | inr (e, found) ↦
            let at_key = get-In id e dirty found in
            let there =
              dirty_ids-In e entries (sort-In key e (values dirty) (values-In id e dirty at_key)) in
            t
            ∙ sym (
                member_of_In id _ (
                  subst (λ i. In i (dirty_ids entries)) (In-IsKeyed id e dirty keyed at_key) there))
      ]
      | inr f ↦ elim (Bool-cases (member id (dirty_ids entries))) [
        | inr g ↦ f ∙ sym g
        | inl t ↦
            let (e, m, q) = In-dirty_ids id entries (In-of_member id _ t) in
            let (k, n) = In-values e dirty (In-sort key e (values dirty) m) in
            cc (In-contains k e dirty n, In-IsKeyed k e dirty keyed n, q)
      ]
    ]
