-- ===== src/Replay/Parted/Laid.antt =====
-- What the first part of `plan_state` finds: the spans of the source run, and those that are dirty.
use mathlib.Core.Path.{subst}
use replay_kit.Common.{
  Option, none, some, List, [], ◌∷◌, ◌≡◌, refl, sym, ap, ◌∙◌, ◌⊎◌, In, inl, inr, member, arith,
}
use replay_kit.Common.Eq.{◌==◌, string_eq, string_ord}
use replay_kit.Common.Map.{Map, get, insert, get-insert, get-nil, contains_key}
use replay_kit.Common.Result.{Result, ok, ok_or, ok-chain, guard, map_err}
use replay_kit.Common.Sort.{sort_by_key, In-sort, sort-In}
use replay_kit.Common.Tests.{Bool-cases}
use replay_kit.Model.Records.{SpanId, SpanRecord, BranchRequest}
use replay_kit.Replay.Dirty.{compute_dirty_map}
use replay_kit.Replay.Dirty.Keyed.{dirty_ids, compute_dirty_map-dirty_ids}
use replay_kit.Replay.Engine.{Machine, ReplayError, invalid_patch, endless, storage}
use replay_kit.Replay.Rules.{no_spans, no_fork_span, validate_patch_target, invalid_replacement}
use replay_kit.Replay.Layout.{has_spans, Layout, layout_of, span_map_from, in_sequence}
use replay_kit.Storage.Records.{list_spans}
use replay_kit.Replay.Inputs.{patch_inputs}
use replay_kit.Storage.State.{MemoryState, edges_of, get_run}

pub record LaidOut (request : BranchRequest) (s : MemoryState) (layout : Layout) : Type 0 where
  pub spans :
      layout.spans ≡ sort_by_key (λ span. span.sequence_no) (list_spans request.source_run_id s)
  pub span_map : layout.span_map ≡ span_map_from [] layout.spans
  pub dirty :
      compute_dirty_map request.fork_span_id layout.spans (edges_of s request.source_run_id)
      ≡ some layout.dirty
  pub dirty_spans : layout.dirty_spans ≡ in_sequence layout.span_map layout.dirty

pub some_of : {A : Type 0} (x : Option A) (e : ReplayError) (a : A) → ok_or x e ≡ ok a → x ≡ some a
some_of none e a h = cc
some_of (some b) e a h = ground arith

abbrev succeeds : {A : Type 0} → A → Result ReplayError A
succeeds a = ok a

ok_inj : {A : Type 0} (a b : A) → succeeds a ≡ ok b → a ≡ b
ok_inj a b h = ground arith

pub layout_of-LaidOut :
    {W : Type 0} (machine : Machine W) (request : BranchRequest) (s : MemoryState) (layout : Layout)
    → layout_of machine request s ≡ ok layout
    → LaidOut request s layout
unfolding layout_of
layout_of-LaidOut machine request s layout h =
    let spans = sort_by_key (λ span. span.sequence_no) (list_spans request.source_run_id s) in
    let span_map = span_map_from [] spans in
    let (u, e1, h1) =
      ok-chain _ (guard (has_spans spans) (invalid_patch (no_spans request.source_run_id))) h in
    let (fork, e2, h2) =
      ok-chain _
        (ok_or (get request.fork_span_id span_map)
          (invalid_patch (no_fork_span request.fork_span_id request.source_run_id)))
        h1 in
    let (v, e3, h3) = ok-chain _ (map_err invalid_patch (validate_patch_target fork request)) h2 in
    let manifest = request.patch_manifest in
    let (patch, e4, h4) =
      ok-chain _
        (map_err (λ e. invalid_patch (invalid_replacement manifest.patch_type e))
          (patch_inputs machine.parse_json manifest.patch_type manifest.replacement fork))
        h3 in
    let (dirty, e5, h5) =
      ok-chain _
        (ok_or (compute_dirty_map request.fork_span_id spans (edges_of s request.source_run_id))
          endless)
        h4 in
    let (run, e6, h6) = ok-chain _ (map_err storage (get_run request.source_run_id s)) h5 in
    subst (LaidOut request s) (ok_inj _ layout h6) (record {
      spans = refl;
      span_map = refl;
      dirty = some_of _ endless dirty e5;
      dirty_spans = refl;
    })

-- The span that the map of a list has under an id is in the list, with that id.
span_map-In_from :
    (id : SpanId) (m : Map SpanId SpanRecord) (spans : List SpanRecord) {span : SpanRecord}
    → get id (span_map_from m spans) ≡ some span
    → (In span spans × (span.span_id ≡ id)) ⊎ (get id m ≡ some span)
unfolding span_map_from
span_map-In_from id m [] h = inr h
span_map-In_from id m (x ∷ spans) {span} h =
    elim (span_map-In_from id (insert x.span_id x m) spans h) [
      | inl (n, e) ↦ inl (inr n, e)
      | inr found ↦ elim (Bool-cases (x.span_id == id)) [
        | inl t ↦
            let same : x ≡ span = ground (arith, get-insert x.span_id id x m, t, found) in
            inl (
              inl (sym same),
              ap (λ y. y.span_id) (sym same) ∙ (string_eq.equal_iff x.span_id id).0 t,
            )
        | inr f ↦ inr (ground (arith, get-insert x.span_id id x m, f, found))
      ]
    ]

module _ (request : BranchRequest) (s : MemoryState) (layout : Layout)
    (laid : LaidOut request s layout) where
  abbrev source_spans : List SpanRecord
  source_spans = list_spans request.source_run_id s

  pub source-In : (span : SpanRecord) → In span source_spans → In span layout.spans
  source-In span m = rw laid.spans (sort-In _ span source_spans m)

  pub span_map-In :
      (id : SpanId) {span : SpanRecord}
      → get id layout.span_map ≡ some span
      → In span source_spans × (span.span_id ≡ id)
  span_map-In id h =
      elim (span_map-In_from id [] layout.spans (sym (ap (get id) laid.span_map) ∙ h)) [
        | inl (m, e) ↦ (In-sort _ _ source_spans (rw laid.spans at m), e)
        | inr found ↦ cc (get-nil {V = SpanRecord} id, found)
      ]

  pub contains-dirty_ids :
      (id : SpanId) → contains_key id layout.dirty ≡ member id (dirty_ids layout.dirty_spans)
  unfolding in_sequence
  contains-dirty_ids id =
      compute_dirty_map-dirty_ids request.fork_span_id layout.spans
        (edges_of s request.source_run_id) layout.dirty _ id laid.dirty
      ∙ ap (λ entries. member id (dirty_ids entries)) (sym laid.dirty_spans)
