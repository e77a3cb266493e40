-- ===== src/Replay/Dirty/Grew.antt =====
-- What a series of `push_dirty` calls for one span does, and the measure that falls in each round.
use replay_kit.Common.{
  ℕ, ◌+◌, ◌≤◌, false, ◌≡◌, refl, ap, ◌⊎◌, inl, inr, List, [], ◌∷◌, In, length, length-append,
  member, In-of_member, arith,
}
use replay_kit.Common.Eq.{string_eq}
use replay_kit.Common.Map.{Map, contains_key}
use replay_kit.Common.Tests.{Bool-cases, if◌then◌else◌}
use replay_kit.Model.Enums.{DirtyReason, upstream_output_changed, dependency_unknown}
use replay_kit.Model.Records.{SpanId, DirtySpanRecord}
use replay_kit.Replay.Dirty.{Search, push_dirty, push_dependents, push_child, push_children}
use replay_kit.Replay.Dirty.Push.{
  Dirty, Triggered, queue-pushed, Dirty-pushed, Triggered-new, Triggered-keeps, Triggered-cases,
  queued-pushed, new-queued, queue_cases,
}

-- How many of the ids are not dirty yet.
abbrev pub unseen : List SpanId → Map SpanId DirtySpanRecord → ℕ
unseen [] m = 0
unseen (x ∷ xs) m = (if contains_key x m then 0 else 1) + unseen xs m

abbrev pub work : List SpanId → Search → ℕ
work ids s = unseen ids s.dirty + length s.queue

module _ (s t : Search) (more : (y : SpanId) → Dirty s y → Dirty t y) where
  unseen_le : (ids : List SpanId) → unseen ids t.dirty ≤ unseen ids s.dirty
  unseen_le [] = omega arith
  unseen_le (x ∷ xs) = ground (arith, unseen_le xs, more x)

  unseen_lt :
      (ids : List SpanId) (x : SpanId)
      → In x ids
      → contains_key x s.dirty ≡ false
      → Dirty t x
      → unseen ids t.dirty + 1 ≤ unseen ids s.dirty
  unseen_lt [] x h p q = absurd h
  unseen_lt (y ∷ ys) x (inl e) p q = ground (arith, unseen_le ys, more y)
  unseen_lt (y ∷ ys) x (inr h) p q = ground (arith, unseen_lt ys x h p q, more y)

-- From `s` to `t` the ids of `Added` were pushed, each triggered by `current`.
pub record Grew (current : SpanId) (Added : SpanId → Type 0) (s t : Search) : Type 0 where
  pub dirty : (y : SpanId) → Dirty t y → Dirty s y ⊎ Added y
  pub dirty_keeps : (y : SpanId) → Dirty s y → Dirty t y
  pub triggered : (y : SpanId) → Added y → Triggered t y current
  pub trigger_keeps : (y u : SpanId) → Triggered s y u → Triggered t y u
  pub trigger_cases : (y u : SpanId) → Triggered t y u → (Added y × (u ≡ current)) ⊎ Triggered s y u
  pub queue_keeps : (y : SpanId) → In y s.queue → In y t.queue
  pub new_queued : (y : SpanId) → Dirty t y → Dirty s y ⊎ In y t.queue
  pub queue_cases : (y : SpanId) → In y t.queue → In y s.queue ⊎ Dirty t y
  pub work_le : (ids : List SpanId) → ((y : SpanId) → Added y → In y ids) → work ids t ≤ work ids s

Grew-push :
    (x : SpanId) (reason : DirtyReason) (current : SpanId) (s : Search)
    → Grew current (λ y. y ≡ x) s (push_dirty x reason current s)
Grew-push x reason current s = record {
  dirty = λ y h. (Dirty-pushed x reason current s y).0 h;
  dirty_keeps = kept;
  triggered = λ y e. rw e (Triggered-new x reason current s);
  trigger_keeps = Triggered-keeps x reason current s;
  trigger_cases = Triggered-cases x reason current s;
  queue_keeps = queued-pushed x reason current s;
  new_queued = new-queued x reason current s;
  queue_cases = queue_cases x reason current s;
  work_le = λ ids inside. elim (Bool-cases (contains_key x s.dirty)) [
    | inl old ↦
        omega
          (arith, unseen_le s t kept ids, ap length (rw old at (queue-pushed x reason current s)))
    | inr new ↦ omega (
      arith,
      unseen_lt s t kept ids x (inside x refl) new
          ((Dirty-pushed x reason current s x).1 (inr refl)),
      ap length (rw new at (queue-pushed x reason current s)),
      length-append s.queue (x ∷ []),
    )
  ];
}
  where
    t : Search
    t = push_dirty x reason current s

    kept : (y : SpanId) → Dirty s y → Dirty t y
    kept y h = (Dirty-pushed x reason current s y).1 (inl h)

module _ {current : SpanId} {A B : SpanId → Type 0} {s t u : Search} where
  -- One series after another.
  Grew-then : Grew current A s t → Grew current B t u → Grew current (λ y. A y ⊎ B y) s u
  Grew-then g h = record {
    dirty = λ y d. elim (h.dirty y d) [
      | inl d' ↦ elim (g.dirty y d') [ inl old ↦ inl old | inr a ↦ inr (inl a) ]
      | inr b ↦ inr (inr b)
    ];
    dirty_keeps = λ y d. h.dirty_keeps y (g.dirty_keeps y d);
    triggered = λ y added. elim added [
      | inl a ↦ h.trigger_keeps y current (g.triggered y a)
      | inr b ↦ h.triggered y b
    ];
    trigger_keeps = λ y v d. h.trigger_keeps y v (g.trigger_keeps y v d);
    trigger_cases = λ y v d. elim (h.trigger_cases y v d) [
      | inl new ↦ inl (inr new.0, new.1)
      | inr mid ↦ elim (g.trigger_cases y v mid) [
        | inl new ↦ inl (inl new.0, new.1)
        | inr old ↦ inr old
      ]
    ];
    queue_keeps = λ y d. h.queue_keeps y (g.queue_keeps y d);
    new_queued = λ y d. elim (h.new_queued y d) [
      | inl mid ↦ elim (g.new_queued y mid) [ inl old ↦ inl old | inr q ↦ inr (h.queue_keeps y q) ]
      | inr q ↦ inr q
    ];
    queue_cases = λ y q. elim (h.queue_cases y q) [
      | inl mid ↦ elim (g.queue_cases y mid) [ inl old ↦ inl old | inr d ↦ inr (h.dirty_keeps y d) ]
      | inr d ↦ inr d
    ];
    work_le = λ ids inside.
        omega
          (arith, g.work_le ids (λ y a. inside y (inl a)), h.work_le ids (λ y b. inside y (inr b)));
  }

-- Nothing was pushed, because all was pushed before.
Grew-none :
    {A : SpanId → Type 0} (current : SpanId) (s : Search)
    → ((y : SpanId) → A y → Triggered s y current)
    → Grew current A s s
Grew-none current s before = record {
  dirty = λ y d. inl d;
  dirty_keeps = λ y d. d;
  triggered = before;
  trigger_keeps = λ y u h. h;
  trigger_cases = λ y u h. inr h;
  queue_keeps = λ y h. h;
  new_queued = λ y d. inl d;
  queue_cases = λ y q. inl q;
  work_le = λ ids inside. omega arith;
}

pub Grew-dependents :
    (current : SpanId) (next : List SpanId) (s : Search)
    → Grew current (λ y. In y next) s (push_dependents current next s)
unfolding push_dependents
Grew-dependents current [] s = Grew-none current s (λ y h. absurd h)
Grew-dependents current (x ∷ rest) s =
    Grew-then (Grew-push x upstream_output_changed current s)
      (Grew-dependents current rest (push_dirty x upstream_output_changed current s))

Grew-child :
    (current : SpanId) (dependents : List SpanId) (child : SpanId) (s : Search)
    → ((y : SpanId) → In y dependents → Triggered s y current)
    → Grew current (λ y. y ≡ child) s (push_child current dependents child s)
unfolding push_child
Grew-child current dependents child s before = elim (Bool-cases (member child dependents)) [
  | inl skip ↦
      rw (skip, push_child)
        (Grew-none current s (λ y e. rw e (before child (In-of_member child dependents skip))))
  | inr take ↦ rw (take, push_child) (Grew-push child dependency_unknown current s)
]

pub Grew-children :
    (current : SpanId) (dependents children : List SpanId) (s : Search)
    → ((y : SpanId) → In y dependents → Triggered s y current)
    → Grew current (λ y. In y children) s (push_children current dependents children s)
unfolding push_children
Grew-children current dependents [] s before = Grew-none current s (λ y h. absurd h)
Grew-children current dependents (x ∷ rest) s before =
    let first = Grew-child current dependents x s before in
    Grew-then first (
      Grew-children current dependents rest (push_child current dependents x s)
        (λ y h. first.trigger_keeps y current (before y h)))

pub Grew-both :
    (current : SpanId) (dependents children : List SpanId) (s : Search)
    → Grew current
        (λ y. In y dependents ⊎ In y children)
        s
        (push_children current dependents children (push_dependents current dependents s))
Grew-both current dependents children s =
    let first = Grew-dependents current dependents s in
    Grew-then first (
      Grew-children current dependents children (push_dependents current dependents s)
        first.triggered)
