-- ===== src/Replay/Dirty/Push.antt =====
-- What one call of `push_dirty` does to the map, the triggers and the queue.
use replay_kit.Common.{
  true, ◌≡◌, refl, sym, ◌⊎◌, ◌↔◌, inl, inr, Option, none, some, List, [], ◌∷◌, ◌++◌, In, In-append,
  In-append_left, In-append_right, In-of_member, member, arith,
}
use replay_kit.Common.Eq.{◌==◌, string_eq, string_ord}
use replay_kit.Common.Map.{get, get-insert, contains_key}
use replay_kit.Common.Tests.{Bool-cases, Option-cases, if◌then◌else◌}
use replay_kit.Model.Enums.{DirtyReason}
use replay_kit.Model.Records.{SpanId, DirtySpanRecord}
use replay_kit.Replay.Dirty.{Search, push_dirty, newly_dirty, once_more, add_trigger}

abbrev pub Dirty : Search → SpanId → Type 0
Dirty s x = contains_key x s.dirty ≡ true

-- The record of `x` names `t` as a span that made it dirty.
abbrev pub TriggeredIn : Option DirtySpanRecord → SpanId → Type 0
TriggeredIn none t = ⊥
TriggeredIn (some rec) t = In t rec.triggered_by

abbrev pub Triggered : Search → SpanId → SpanId → Type 0
Triggered s x t = TriggeredIn (get x s.dirty) t

add_trigger_new : (t : SpanId) (xs : List SpanId) → In t (add_trigger t xs)
add_trigger_new t xs = elim (Bool-cases (member t xs)) [
  | inl old ↦ rw old (In-of_member t xs old)
  | inr new ↦ rw new (In-append_right t xs (t ∷ []) (inl refl))
]

add_trigger_keeps : (t u : SpanId) (xs : List SpanId) → In u xs → In u (add_trigger t xs)
add_trigger_keeps t u xs h = elim (Bool-cases (member t xs)) [
  | inl old ↦ rw old h
  | inr new ↦ rw new (In-append_left u xs (t ∷ []) h)
]

add_trigger_cases : (t u : SpanId) (xs : List SpanId) → In u (add_trigger t xs) → (u ≡ t) ⊎ In u xs
add_trigger_cases t u xs h = elim (Bool-cases (member t xs)) [
  | inl old ↦ inr (rw old at h)
  | inr new ↦ elim (In-append u xs (t ∷ []) (rw new at h)) [
    | inl there ↦ inr there
    | inr here ↦ elim here [ inl e ↦ inl e | inr none_left ↦ absurd none_left ]
  ]
]

module _ (x : SpanId) (reason : DirtyReason) (t : SpanId) (s : Search) where
  abbrev pub pushed : Search
  pushed = push_dirty x reason t s

  -- The record that `x` then has.
  abbrev pub entry : Option DirtySpanRecord → DirtySpanRecord
  entry none = newly_dirty x reason t
  entry (some rec) = once_more reason t rec

  pub get-pushed :
      (y : SpanId)
      → get y pushed.dirty ≡ (if x == y then some (entry (get x s.dirty)) else get y s.dirty)
  unfolding push_dirty
  get-pushed y = elim (Option-cases (get x s.dirty)) [
    | inl new ↦ rw (new, push_dirty) (get-insert x y (newly_dirty x reason t) s.dirty)
    | inr (rec, old) ↦ rw (old, push_dirty) (get-insert x y (once_more reason t rec) s.dirty)
  ]

  pub queue-pushed : pushed.queue ≡ (if contains_key x s.dirty then s.queue else s.queue ++ x ∷ [])
  unfolding push_dirty
  queue-pushed = elim (Option-cases (get x s.dirty)) [
    | inl new ↦ rw (new, push_dirty)
    | inr (rec, old) ↦ rw (old, push_dirty)
  ]

  pub Dirty-pushed : (y : SpanId) → Dirty pushed y ↔ (Dirty s y ⊎ (y ≡ x))
  Dirty-pushed y = ground (arith, get-pushed y, string_eq.equal_iff x y)

  entry-new : (o : Option DirtySpanRecord) → In t (entry o).triggered_by
  unfolding newly_dirty once_more
  entry-new none = inl refl
  entry-new (some rec) = add_trigger_new t rec.triggered_by

  pub Triggered-new : Triggered pushed x t
  Triggered-new = rw (get-pushed x, (string_eq.equal_iff x x).1 refl) (entry-new (get x s.dirty))

  entry-keeps :
      (o : Option DirtySpanRecord) (u : SpanId) → TriggeredIn o u → In u (entry o).triggered_by
  unfolding once_more
  entry-keeps none u h = absurd h
  entry-keeps (some rec) u h = add_trigger_keeps t u rec.triggered_by h

  pub Triggered-keeps : (y u : SpanId) → Triggered s y u → Triggered pushed y u
  Triggered-keeps y u h = elim (Bool-cases (x == y)) [
    | inl same ↦
        rw (get-pushed y, same)
          (entry-keeps (get x s.dirty) u (rw ((string_eq.equal_iff x y).0 same) h))
    | inr other ↦ rw (get-pushed y, other) h
  ]

  entry-cases :
      (o : Option DirtySpanRecord) (u : SpanId)
      → In u (entry o).triggered_by
      → (u ≡ t) ⊎ TriggeredIn o u
  unfolding newly_dirty once_more
  entry-cases none u (inl e) = inl e
  entry-cases none u (inr h) = absurd h
  entry-cases (some rec) u h = add_trigger_cases t u rec.triggered_by h

  pub Triggered-cases :
      (y u : SpanId) → Triggered pushed y u → ((y ≡ x) × (u ≡ t)) ⊎ Triggered s y u
  Triggered-cases y u h = elim (Bool-cases (x == y)) [
    | inl same ↦
        let e : x ≡ y = (string_eq.equal_iff x y).0 same in
        elim (entry-cases (get x s.dirty) u (rw (get-pushed y, same) at h)) [
          | inl new ↦ inl (sym e, new)
          | inr old ↦ inr (rw (← e) old)
        ]
    | inr other ↦ inr (rw (get-pushed y, other) at h)
  ]

  pub queued-pushed : (y : SpanId) → In y s.queue → In y pushed.queue
  queued-pushed y h = elim (Bool-cases (contains_key x s.dirty)) [
    | inl old ↦ rw (queue-pushed, old) h
    | inr new ↦ rw (queue-pushed, new) (In-append_left y s.queue (x ∷ []) h)
  ]

  -- What became dirty is in the queue.
  pub new-queued : (y : SpanId) → Dirty pushed y → Dirty s y ⊎ In y pushed.queue
  new-queued y h = elim (Bool-cases (contains_key x s.dirty)) [
    | inl old ↦ inl (ground (arith, Dirty-pushed y))
    | inr new ↦ elim ((Dirty-pushed y).0 h) [
      | inl before ↦ inl before
      | inr e ↦ inr (rw (queue-pushed, new) (In-append_right y s.queue (x ∷ []) (inl e)))
    ]
  ]

  -- What is queued was queued before, or is dirty.
  pub queue_cases : (y : SpanId) → In y pushed.queue → In y s.queue ⊎ Dirty pushed y
  queue_cases y h = elim (Bool-cases (contains_key x s.dirty)) [
    | inl old ↦ inl (rw (queue-pushed, old) at h)
    | inr new ↦ elim (In-append y s.queue (x ∷ []) (rw (queue-pushed, new) at h)) [
      | inl before ↦ inl before
      | inr last ↦ elim last [
        | inl e ↦ inr ((Dirty-pushed y).1 (inr e))
        | inr none_left ↦ absurd none_left
      ]
    ]
  ]
