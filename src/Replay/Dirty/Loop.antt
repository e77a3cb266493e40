-- ===== src/Replay/Dirty/Loop.antt =====
-- The search ends, and its invariant holds at the end.
use mathlib.Core.Path.{subst}
use replay_kit.Common.{
  ℕ, zero, suc, ◌≤◌, ◌≡◌, refl, ap, ◌⊎◌, inl, inr, some, List, [], ◌∷◌, In, length, arith,
}
use replay_kit.Common.Map.{Map}
use replay_kit.Common.Tests.{List-cases}
use replay_kit.Model.Records.{SpanId, DirtySpanRecord}
use replay_kit.Replay.Dirty.{Successors, Search, expand, loop}
use replay_kit.Replay.Dirty.Grew.{Grew, Grew-both, work}
use replay_kit.Replay.Dirty.Push.{Dirty, Triggered}
use replay_kit.Replay.Dirty.Spec.{next}

module _ (children dependents : Successors) (fork : SpanId) where
  -- One step in the two maps, and the ids that steps lead to.
  abbrev pub Edge : SpanId → SpanId → Type 0
  Edge a b = In b (next dependents a) ⊎ In b (next children a)

  pub data PathFrom : SpanId → Type 0 where
    here : PathFrom fork
    step : {a b : SpanId} → PathFrom a → Edge a b → PathFrom b

  pub record Inv (s : Search) : Type 0 where
    pub source : Dirty s fork
    pub queued : (y : SpanId) → In y s.queue → Dirty s y
    pub sound : (y : SpanId) → Dirty s y → PathFrom y
    pub triggers : (y u : SpanId) → Triggered s y u → Dirty s u × Edge u y
    pub closed : (u v : SpanId) → Dirty s u → Edge u v → In u s.queue ⊎ Triggered s v u

  Inv-Grew :
      (current : SpanId) (rest : List SpanId) (s t : Search)
      → s.queue ≡ current ∷ rest
      → Inv s
      → Grew current (Edge current) (record s { queue = rest }) t
      → Inv t
  Inv-Grew current rest s t e inv g = record {
    source = g.dirty_keeps fork inv.source;
    queued = λ y h. elim (g.queue_cases y h) [
      | inl old ↦ g.dirty_keeps y (inv.queued y (rw e (inr old)))
      | inr d ↦ d
    ];
    sound = λ y h. elim (g.dirty y h) [
      | inl old ↦ inv.sound y old
      | inr edge ↦ step (inv.sound current was_dirty) edge
    ];
    triggers = λ y u h. elim (g.trigger_cases y u h) [
      | inl new ↦ rw new.1 (g.dirty_keeps current was_dirty, new.0)
      | inr old ↦ let (d, edge) = inv.triggers y u old in (g.dirty_keeps u d, edge)
    ];
    closed = λ u v d edge. elim (g.new_queued u d) [
      | inl old ↦ elim (inv.closed u v old edge) [
        | inl waiting ↦ after_pop u v edge (rw e at waiting)
        | inr done ↦ inr (g.trigger_keeps v u done)
      ]
      | inr waiting ↦ inl waiting
    ];
  }
    where
      was_dirty : Dirty s current
      was_dirty = inv.queued current (rw e (inl refl))

      after_pop : (u v : SpanId) → Edge u v → In u (current ∷ rest) → In u t.queue ⊎ Triggered t v u
      after_pop u v edge (inl same) = inr (rw same (g.triggered v (rw same at edge)))
      after_pop u v edge (inr later) = inl (g.queue_keeps u later)

  Grew-expand :
      (current : SpanId) (s : Search)
      → Grew current (Edge current) s (expand children dependents current s)
  unfolding expand
  Grew-expand current s = Grew-both current (next dependents current) (next children current) s

  empty_queue : (s : Search) → s.queue ≡ [] → Inv s → Inv (record { dirty = s.dirty; queue = [] })
  empty_queue s e inv = subst (λ q. Inv (record { dirty = s.dirty; queue = q })) e inv

  -- With fuel for the ids that are not dirty and those that wait, the loop ends, with an empty queue
  -- and the invariant.
  pub loop_ends :
      (ids : List SpanId)
      → ((a b : SpanId) → Edge a b → In b ids)
      → (fuel : ℕ) (s : Search) → Inv s
      → work ids s ≤ fuel
      → (m : Map SpanId DirtySpanRecord) × (loop children dependents fuel s ≡ some m)
        × Inv (record { dirty = m; queue = [] })
  unfolding loop
  loop_ends ids inside zero s inv h = elim (List-cases s.queue) [
    | inl empty ↦ (s.dirty, rw (empty, loop), empty_queue s empty inv)
    | inr (x, rest, e) ↦ absurd (omega (arith, ap length e))
  ]
  loop_ends ids inside (suc fuel) s inv h = elim (List-cases s.queue) [
    | inl empty ↦ (s.dirty, rw (empty, loop), empty_queue s empty inv)
    | inr (x, rest, e) ↦
        let popped : Search = record s { queue = rest } in
        let g = Grew-expand x popped in
        let t = expand children dependents x popped in
        let (m, ends, final) =
          loop_ends ids inside fuel t (Inv-Grew x rest s t e inv g)
            (omega (arith, ap length e, g.work_le ids (inside x))) in
        (m, rw (e, loop) ends, final)
  ]
