-- ===== src/Replay/Keeping/Derived.antt =====
-- `replay_spans` keeps what its calls of the store keep.
use replay_kit.Common.{ℕ, Bool, true, false, Option, none, some, List, [], ◌∷◌, String, ◌≡◌}
use replay_kit.Common.Action.{Keeps, keeps-bind, keeps-then, keeps-learn}
use replay_kit.Common.Result.{Result, ok, err}
use replay_kit.Model.Records.{RunId, ArtifactId, SpanRecord, BranchRequest}
use replay_kit.Replay.Containers.{
  replay_if, replay_dirty, child_outcomes, block_counted, store_derived, derived_span,
  derive_unless, replay_container, replay_containers, replay_spans,
}
use replay_kit.Replay.Engine.{Machine, ExecutorRegistry, ExecutionResult}
use replay_kit.Replay.Keeping.{Survives}
use replay_kit.Replay.Keeping.Line.{InStore, calls-Keeps, read-Keeps, finish-Keeps}
use replay_kit.Replay.Keeping.Spans.{looks_done, execute-Keeps, replay_span-Keeps}
use replay_kit.Replay.Keeping.Writes.{upsert_span-Keeps, mark_blocked-Keeps}
use replay_kit.Replay.Plan.{PlanState}
use replay_kit.Replay.Respan.{Progress, no_progress}
use replay_kit.Replay.Sandbox.{ReplayWorkspace}
use replay_kit.Replay.Timeline.{Timeline}
use replay_kit.Storage.State.{InMemoryStorage, get_span}

module _ {W : Type 0} (P : InMemoryStorage → Type 0) (machine : Machine W)
    (registry : ExecutorRegistry W) (request : BranchRequest) (state : PlanState) (r : RunId)
    (patch_artifact : ArtifactId) (workspace : ReplayWorkspace) (line : Timeline) (now : ℕ)
    (survives : Survives P machine.env r)
    (line_survives : Survives P machine.env line.target_run_id) where
  replay_if-Keeps :
      (test : Bool) (span : SpanRecord) (p : Progress)
      → Keeps
          (InStore P)
          (replay_if machine registry request state r patch_artifact workspace line now test span p)
  replay_if-Keeps false span p = read-Keeps P _
  replay_if-Keeps true span p =
      replay_span-Keeps P machine registry request state r patch_artifact workspace line now
        survives line_survives span p

  replay_dirty-Keeps :
      (spans : List SpanRecord) (p : Progress)
      → Keeps
          (InStore P)
          (replay_dirty machine registry request state r patch_artifact workspace line now spans p)
  unfolding replay_dirty
  replay_dirty-Keeps [] p = read-Keeps P _
  replay_dirty-Keeps (span ∷ spans) p =
      keeps-bind (InStore P) _ _ (replay_if-Keeps _ span p) (λ q. replay_dirty-Keeps spans q)

  child_outcomes-Keeps :
      (children : List SpanRecord)
      → Keeps (InStore P) (
          child_outcomes machine registry request state r patch_artifact workspace line now
            children)
  unfolding child_outcomes
  child_outcomes-Keeps [] = read-Keeps P _
  child_outcomes-Keeps (child ∷ children) = keeps-bind (InStore P) _ _ (read-Keeps P _) (λ replayed.
      keeps-bind (InStore P) _ _ (child_outcomes-Keeps children) (λ rest. read-Keeps P _))

  block_counted-Keeps :
      (span : SpanRecord) (reason : String) (p : Progress)
      → span.run_id ≡ r
      → Keeps (InStore P) (
          block_counted machine registry request state r patch_artifact workspace line now span
            reason p)
  block_counted-Keeps span reason p h =
      keeps-then (InStore P) _ _
        (calls-Keeps P W _ (mark_blocked-Keeps P survives span reason now h)) (read-Keeps P _)

  store_derived-Keeps :
      (container span : SpanRecord) (is_dirty : Bool) (result : Result String ExecutionResult)
      (p : Progress)
      → span.run_id ≡ r
      → Keeps (InStore P) (
          store_derived machine registry request state r patch_artifact workspace line now container
            span is_dirty result p)
  unfolding derived_span
  store_derived-Keeps container span is_dirty (ok result) p h =
      keeps-then (InStore P) _ _ (calls-Keeps P W _ (upsert_span-Keeps P survives _ h))
        (read-Keeps P _)
  store_derived-Keeps container span true (err reason) p h = block_counted-Keeps span reason p h
  store_derived-Keeps container span false (err reason) p h = read-Keeps P _

  derive_unless-Keeps :
      (reason : Option String) (container span : SpanRecord) (p : Progress)
      → span.run_id ≡ r
      → Keeps (InStore P) (
          derive_unless machine registry request state r patch_artifact workspace line now reason
            container span p)
  derive_unless-Keeps (some reason) container span p h = block_counted-Keeps span reason p h
  derive_unless-Keeps none container span p h =
      keeps-bind (InStore P) _ _ (read-Keeps P _) (λ recorded.
        keeps-bind (InStore P) _ _ (child_outcomes-Keeps _) (λ children.
          keeps-bind (InStore P) _ _ (execute-Keeps P machine registry container _)
            (λ result. store_derived-Keeps container span _ result p h)))

  replay_containers-Keeps :
      (containers : List SpanRecord) (p : Progress)
      → Keeps (InStore P) (
          replay_containers machine registry request state r patch_artifact workspace line now
            containers p)
  unfolding replay_containers replay_container
  replay_containers-Keeps [] p = read-Keeps P _
  replay_containers-Keeps (container ∷ containers) p =
      keeps-bind (InStore P) _ _
        (keeps-learn (InStore P) _ _ (read-Keeps P _) (λ span s t q e.
          derive_unless-Keeps _ container span p (
            survives.span_key s.store container.span_id span q
              (looks_done (get_span r container.span_id) span s t e))))
        (λ q. replay_containers-Keeps containers q)

  pub replay_spans-Keeps :
      Keeps
        (InStore P)
        (replay_spans machine registry request state r patch_artifact workspace line now)
  unfolding replay_spans
  replay_spans-Keeps = keeps-bind (InStore P) _ _ (replay_dirty-Keeps _ no_progress) (λ p.
      keeps-bind (InStore P) _ _ (finish-Keeps P machine line line_survives p.skip)
        (λ _. replay_containers-Keeps _ p))
