-- ===== src/Replay/Parted.antt =====
-- A plan parts the spans of the run: those that run again, those whose recorded outcome is used, and the
-- containers whose status is derived again.
mod Laid
mod Rolled
use mathlib.Core.Path.{subst}
use replay_kit.Common.{
  ℕ, zero, suc, String, Bool, true, false, ◌&&◌, ◌⊎◌, inl, inr, Option, none, some, List, [], ◌∷◌,
  In, any, any-false, member, member_of_In, In-of_member, keep, map, ◌≡◌, refl, sym, ap, ◌∙◌, arith,
}
use replay_kit.Common.Eq.{◌==◌, string_eq, string_ord, negate}
use replay_kit.Common.Map.{Map, get, contains_key}
use replay_kit.Common.Result.{Result, ok, err, ok_or, map_ok, ok-chain}
use replay_kit.Common.Tests.{Bool-cases}
use replay_kit.Model.Records.{SpanId, SpanRecord, DirtySpanRecord, BranchRequest}
use replay_kit.Replay.Engine.{Machine, ExecutorRegistry, ReplayError}
use replay_kit.Replay.Rules.{is_container}
use replay_kit.Replay.Layout.{Layout, layout_of}
use replay_kit.Replay.Plan.{
  PlanState, Prediction, base_warnings, override_of, predict_spans, roll_up, roll_up_from,
  roll_up_all, make_plan, plan_found, plan_predicted, plan_archived, plan_warned, plan_layout,
  plan_state, parent_of, rounds, derivable, block_containers, containers_of,
}
use replay_kit.Replay.Dirty.Keyed.{dirty_ids}
use replay_kit.Replay.Parted.Rolled.{
  is_dirty, IsClean, AllContainers, roll_up_all-IsClean, roll_up_all-AllContainers,
}
use replay_kit.Replay.Parted.Laid.{
  LaidOut, layout_of-LaidOut, source-In, span_map-In, contains-dirty_ids,
}
use replay_kit.Storage.Records.{list_spans}
use replay_kit.Storage.State.{InMemoryStorage}
use replay_kit.Workspace.Archive.{WorkspaceArchive}

abbrev ids : List SpanRecord → List SpanId
ids = map (λ span. span.span_id)

member-keep :
    (g : SpanId → Bool) (x : SpanId) (spans : List SpanRecord)
    → member x (ids (keep (λ span. g span.span_id) spans)) ≡ (g x && member x (ids spans))
member-keep g x [] = ground arith
member-keep g x (span ∷ spans) = elim (Bool-cases (span.span_id == x)) [
  | inl t ↦
      let same : g span.span_id ≡ g x = ap g ((string_eq.equal_iff span.span_id x).0 t) in
      ground (
        arith,
        t,
        same,
        member-keep g x spans,
        string_eq.equal_iff x span.span_id,
        string_eq.equal_iff span.span_id x,
      )
  | inr f ↦ ground (
    arith,
    f,
    member-keep g x spans,
    string_eq.equal_iff x span.span_id,
    string_eq.equal_iff span.span_id x,
  )
]

In-ids : (span : SpanRecord) (spans : List SpanRecord) → In span spans → In span.span_id (ids spans)
In-ids span [] h = absurd h
In-ids span (other ∷ spans) (inl e) = inl (ap (λ s. s.span_id) e)
In-ids span (other ∷ spans) (inr h) = inr (In-ids span spans h)

mapped :
    {A B : Type 0} (f : A → B) (r : Result ReplayError A) (b : B)
    → map_ok f r ≡ ok b
    → (a : A) × (r ≡ ok a) × (f a ≡ b)
mapped f (ok a) b h = (a, refl, ground arith)
mapped f (err e) b h = cc

-- Exactly one of three tests holds.
abbrev pub OneOf : Bool → Bool → Bool → Type 0
OneOf a b c =
    ((a ≡ true) × (b ≡ false) × (c ≡ false))
    ⊎ ((a ≡ false) × (b ≡ true) × (c ≡ false))
    ⊎ ((a ≡ false) × (b ≡ false) × (c ≡ true))

module _ {W : Type 0} (machine : Machine W) (registry : ExecutorRegistry W)
    (request : BranchRequest) (layout : Layout) (st : InMemoryStorage) (w : W) where
  one_of :
      (d r m : Bool)
      → (r ≡ true → d ≡ false)
      → m ≡ true
      → OneOf d ((negate d && negate r) && m) (r && m)
  one_of true true m h k = cc (h refl)
  one_of true false true h k = inl (refl, refl, refl)
  one_of false true true h k = inr (inr (refl, refl, refl))
  one_of false false true h k = inr (inl (refl, refl, refl))
  one_of true false false h k = cc
  one_of false true false h k = cc
  one_of false false false h k = cc

  make_plan-OneOf :
      (blocked : Map SpanId String) (rollup : List SpanId) (warnings : List String)
      (span : SpanRecord)
      → IsClean machine registry request layout st w rollup
      → In span layout.spans
      → OneOf
          ((is_dirty machine registry request layout st w) span.span_id)
          (member span.span_id
            (make_plan machine registry request layout blocked rollup warnings).reusable_spans)
          (member span.span_id
            (make_plan machine registry request layout blocked rollup warnings).rollup_spans)
  unfolding make_plan
  make_plan-OneOf blocked rollup warnings span clean here =
      let listed : member span.span_id (ids layout.spans) ≡ true =
        member_of_In span.span_id (ids layout.spans) (In-ids span layout.spans here) in
      rw
        (
          member-keep
              (λ id.
                negate ((is_dirty machine registry request layout st w) id)
                && negate (member id rollup))
              span.span_id layout.spans,
          member-keep (λ id. member id rollup) span.span_id layout.spans,
        )
        (one_of ((is_dirty machine registry request layout st w) span.span_id)
          (member span.span_id rollup) (member span.span_id (ids layout.spans))
          (λ r.
            any-false (is_dirty machine registry request layout st w) span.span_id rollup clean
              (In-of_member span.span_id rollup r))
          listed)

  make_plan-AllContainers :
      (blocked : Map SpanId String) (rollup : List SpanId) (warnings : List String)
      → AllContainers machine registry request layout st w rollup
      → AllContainers machine registry request layout st w
          (make_plan machine registry request layout blocked rollup warnings).rollup_spans
  unfolding make_plan
  make_plan-AllContainers blocked rollup warnings all id m =
      let listed = member_of_In id _ m in
      let both : (member id rollup && member id (ids layout.spans)) ≡ true =
        sym (member-keep (λ i. member i rollup) id layout.spans) ∙ listed in
      all id (In-of_member id rollup (ground (arith, both)))

  -- A state whose plan parts the spans that were laid out.
  record IsParted (state : PlanState) : Type 0 where
    laid : state.layout ≡ layout
    dirty : state.plan.dirty_spans ≡ layout.dirty_spans
    parts :
        (span : SpanRecord)
        → In span layout.spans
        → OneOf
            ((is_dirty machine registry request layout st w) span.span_id)
            (member span.span_id state.plan.reusable_spans)
            (member span.span_id state.plan.rollup_spans)
    containers : AllContainers machine registry request layout st w state.plan.rollup_spans

  plan_found-IsParted :
      (archive : Option WorkspaceArchive) (prediction : Prediction) (rollup : List SpanId)
      → roll_up_all machine registry request layout st w layout.dirty_spans [] ≡ ok rollup
      → IsParted (plan_found machine registry request layout st w archive prediction rollup)
  unfolding plan_found make_plan
  plan_found-IsParted archive prediction rollup rolled =
      let blocked : Map SpanId String =
        block_containers machine registry request layout st w
          (containers_of machine registry request layout rollup) prediction.blocked in
      record {
        laid = refl;
        dirty = refl;
        parts = λ span. make_plan-OneOf blocked rollup prediction.warnings span (
            roll_up_all-IsClean machine registry request layout st w layout.dirty_spans [] rollup
              refl rolled);
        containers = make_plan-AllContainers blocked rollup prediction.warnings (
            roll_up_all-AllContainers machine registry request layout st w layout.dirty_spans []
              rollup (λ id m. absurd m) rolled);
      }

  plan_layout-IsParted :
      (state : PlanState)
      → plan_layout machine registry request layout st w ≡ ok state
      → IsParted state
  unfolding plan_layout plan_warned plan_archived plan_predicted
  plan_layout-IsParted state h =
      let (warnings, e, h1) =
        ok-chain (plan_warned machine registry request layout st w)
          (base_warnings layout.points layout.base_point layout.first_dirty) h in
      let (archive, f, h2) =
        ok-chain (plan_archived machine registry request layout st w warnings)
          (override_of machine request.patch_manifest.patch_type request layout.points st w) h1 in
      let (prediction, g, h3) =
        ok-chain (plan_predicted machine registry request layout st w archive)
          (predict_spans machine registry request layout st w layout.dirty_spans
            (record { blocked = []; warnings = warnings }))
          h2 in
      let (rollup, rolled, done) =
        mapped (plan_found machine registry request layout st w archive prediction)
          (roll_up_all machine registry request layout st w layout.dirty_spans []) state h3 in
      subst IsParted done (plan_found-IsParted archive prediction rollup rolled)

  -- The parts by what the plan lists and the source run records.
  laid_out :
      (state : PlanState)
      → LaidOut request st.state layout
      → IsParted state
      → ((span : SpanRecord)
          → In span (list_spans request.source_run_id st.state)
          → OneOf
              (member span.span_id (map (λ e. e.span_id) state.plan.dirty_spans))
              (member span.span_id state.plan.reusable_spans)
              (member span.span_id state.plan.rollup_spans))
        × ((id : SpanId)
            → In id state.plan.rollup_spans
            → (c : SpanRecord) × In c (list_spans request.source_run_id st.state)
              × (c.span_id ≡ id)
              × (is_container c.kind ≡ true))
  laid_out state laid p = (
    λ span m.
        let same =
          contains-dirty_ids request st.state layout laid span.span_id
          ∙ ap (λ es. member span.span_id (dirty_ids es)) (sym p.dirty) in
        subst
          (λ b.
            OneOf b (member span.span_id state.plan.reusable_spans)
              (member span.span_id state.plan.rollup_spans))
          same (p.parts span (source-In request st.state layout laid span m)),
    λ id m.
        let (c, found, kind) = p.containers id m in
        let (n, e) = span_map-In request st.state layout laid id found in (c, n, e, kind),
  )

-- In a plan that is made, each span of the source run is exactly one of these: dirty, reused as it was
-- recorded, or rolled up, by the lists of the plan; and what is rolled up is a container of that run.
pub plan_state-OneOf :
    {W : Type 0} (machine : Machine W) (registry : ExecutorRegistry W) (request : BranchRequest)
    (st : InMemoryStorage) (w : W) (state : PlanState)
    → plan_state machine registry request st w ≡ ok state
    → ((span : SpanRecord)
        → In span (list_spans request.source_run_id st.state)
        → OneOf
            (member span.span_id (map (λ e. e.span_id) state.plan.dirty_spans))
            (member span.span_id state.plan.reusable_spans)
            (member span.span_id state.plan.rollup_spans))
      × ((id : SpanId)
          → In id state.plan.rollup_spans
          → (c : SpanRecord) × In c (list_spans request.source_run_id st.state)
            × (c.span_id ≡ id)
            × (is_container c.kind ≡ true))
unfolding plan_state
plan_state-OneOf machine registry request st w state h =
    let (layout, e, rest) =
      ok-chain (λ layout. plan_layout machine registry request layout st w)
        (layout_of machine request st.state) h in
    laid_out machine registry request layout st w state
      (layout_of-LaidOut machine request st.state layout e)
      (plan_layout-IsParted machine registry request layout st w state rest)
