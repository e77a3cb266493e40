-- ===== src/Replay/Keeping/Spans.antt =====
-- The replay of one span keeps what its calls of the store keep.
use replay_kit.Common.{
  ℕ, Bool, true, false, Option, none, some, List, String, ◌≡◌, refl, ap, ◌∙◌, arith,
}
use replay_kit.Common.Action.{
  Keeps, keeps-bind, keeps-then, keeps-learn, Yields, Yields-bind, Yields-pure,
}
use replay_kit.Common.Result.{Result, ok, err, map_err}
use replay_kit.Model.Records.{RunId, SpanId, ArtifactId, SpanRecord, BranchRequest}
use replay_kit.Replay.Engine.{
  Machine, Session, ExecutorRegistry, ExecutionResult, ReplayExecutionContext, storage, looks,
}
use replay_kit.Replay.KeyValues.{Input}
use replay_kit.Replay.Keeping.{Survives}
use replay_kit.Replay.Keeping.Line.{InStore, calls-Keeps, read-Keeps, advance_to-Keeps}
use replay_kit.Replay.Keeping.Writes.{
  new_id-Keeps, upsert_span-Keeps, mark_blocked-Keeps, persist_executor_artifacts-Keeps,
  persist_executor_snapshot-Keeps, store_patched-Keeps,
}
use replay_kit.Replay.Persist.{satisfy_with_patch, patched_span, patched_artifact}
use replay_kit.Replay.Plan.{PlanState}
use replay_kit.Replay.Respan.{
  Progress, execute, execute_checked, check_and_execute, give_up, store_result, executed_span,
  prepared_span, run_effective, run_span, reused_span, reuse_or_run, unchanged_if, can_reuse,
  unless_blocked, satisfy_or_run, advance_before, replay_span,
}
use replay_kit.Replay.Rules.{reset_span_for_replay}
use replay_kit.Replay.Sandbox.{ReplayWorkspace}
use replay_kit.Replay.Timeline.{Timeline}
use replay_kit.Storage.Blob.{Env}
use replay_kit.Storage.Error.{Checked}
use replay_kit.Storage.State.{MemoryState, InMemoryStorage, get_span}

read_done : {A : Type 0} (r : Checked A) (a : A) → map_err storage r ≡ ok a → r ≡ ok a
read_done (ok b) a h = ground arith
read_done (err e) a h = cc

-- A read that succeeds is one of the store as it is.
pub looks_done :
    {W A : Type 0} (f : MemoryState → Checked A) (a : A) (s t : Session W)
    → looks f s ≡ (ok a, t)
    → f s.store.state ≡ ok a
looks_done f a s t h = read_done (f s.store.state) a (ap (λ x. x.0) h)

-- A patched span is of the run of the span.
satisfy_with_patch-Yields :
    (W : Type 0) (env : Env) (request : BranchRequest) (span : SpanRecord) (patch_id : ArtifactId)
    (now : ℕ)
    → Yields
        (λ x. x.run_id ≡ span.run_id)
        (satisfy_with_patch {W = W} env request span patch_id now)
unfolding satisfy_with_patch patched_span
satisfy_with_patch-Yields W env request span patch_id now = Yields-bind _ _ _ (λ text.
    Yields-bind _ _ _ (λ artifact_id.
      Yields-bind _ _ _
        (λ stored. Yields-bind _ _ _ (λ outputs. Yields-pure _ _ _ (λ s. refl) refl))))

module _ {W : Type 0} (P : InMemoryStorage → Type 0) (machine : Machine W)
    (registry : ExecutorRegistry W) where
  pub execute-Keeps :
      (span : SpanRecord) (context : ReplayExecutionContext)
      → Keeps (InStore P) (execute machine registry span context)
  unfolding execute Keeps
  execute-Keeps span context s p = p

  check_and_execute-Keeps :
      (span : SpanRecord) (context : ReplayExecutionContext)
      → Keeps (InStore P) (check_and_execute machine registry span context)
  unfolding check_and_execute
  check_and_execute-Keeps span context =
      keeps-bind (InStore P) _ _ (read-Keeps P _) (λ c. checked c)
    where
      checked :
          (c : Result String (Unit {0}))
          → Keeps (InStore P) (execute_checked machine registry c span context)
      checked (err reason) = read-Keeps P _
      checked (ok done) = execute-Keeps span context

  module _ (request : BranchRequest) (state : PlanState) (r : RunId) (patch_artifact : ArtifactId)
      (workspace : ReplayWorkspace) (line : Timeline) (now : ℕ)
      (survives : Survives P machine.env r)
      (line_survives : Survives P machine.env line.target_run_id) where
    give_up-Keeps :
        (span_id : SpanId) (span : SpanRecord) (reason : String) (p : Progress)
        → span.run_id ≡ r
        → Keeps (InStore P) (
            give_up machine registry request state r patch_artifact workspace line now span_id span
              reason p)
    unfolding give_up
    give_up-Keeps span_id span reason p h =
        keeps-then (InStore P) _ _
          (calls-Keeps P W _ (mark_blocked-Keeps P survives span reason now h)) (read-Keeps P _)

    store_result-Keeps :
        (span_id : SpanId) (span : SpanRecord) (result : Result String ExecutionResult)
        (p : Progress)
        → span.run_id ≡ r
        → Keeps (InStore P) (
            store_result machine registry request state r patch_artifact workspace line now span_id
              span result p)
    unfolding executed_span
    store_result-Keeps span_id span (err reason) p h = give_up-Keeps span_id span reason p h
    store_result-Keeps span_id span (ok result) p h =
        keeps-bind (InStore P) _ _
          (calls-Keeps P W _
            (persist_executor_artifacts-Keeps P survives span.span_id result.output_artifacts))
          (λ outputs.
            keeps-bind (InStore P) _ _
              (calls-Keeps P W _
                (persist_executor_snapshot-Keeps P survives span.span_id result.snapshot))
              (λ snapshot_id.
                keeps-then (InStore P) _ _ (calls-Keeps P W _ (upsert_span-Keeps P survives _ h))
                  (read-Keeps P _)))

    run_effective-Keeps :
        (source_span target_span : SpanRecord) (in_env_scope : Bool) (effective : Input SpanRecord)
        (p : Progress)
        → target_span.run_id ≡ r
        → Keeps (InStore P) (
            run_effective machine registry request state r patch_artifact workspace line now
              source_span target_span in_env_scope effective p)
    unfolding prepared_span reset_span_for_replay
    run_effective-Keeps source_span target_span in_env_scope (err e) p h =
        give_up-Keeps source_span.span_id target_span _ p h
    run_effective-Keeps source_span target_span in_env_scope (ok effective) p h =
        keeps-bind (InStore P) _ _ (read-Keeps P _) (λ env.
          keeps-bind (InStore P) _ _ (read-Keeps P _) (λ recorded.
            keeps-bind (InStore P) _ _ (check_and_execute-Keeps effective _)
              (λ result. store_result-Keeps source_span.span_id _ result p h)))

    reuse_or_run-Keeps :
        (reuse : Bool) (source_span target_span : SpanRecord) (in_env_scope : Bool) (p : Progress)
        → target_span.run_id ≡ r
        → Keeps (InStore P) (
            reuse_or_run machine registry request state r patch_artifact workspace line now reuse
              source_span target_span in_env_scope p)
    unfolding reused_span run_span
    reuse_or_run-Keeps true source_span target_span in_env_scope p h =
        keeps-then (InStore P) _ _ (calls-Keeps P W _ (upsert_span-Keeps P survives _ h))
          (read-Keeps P _)
    reuse_or_run-Keeps false source_span target_span in_env_scope p h =
        keeps-bind (InStore P) _ _ (read-Keeps P _)
          (λ effective. run_effective-Keeps source_span target_span in_env_scope effective p h)

    unchanged_if-Keeps :
        (test : Bool) (source_span : SpanRecord) (p : Progress)
        → Keeps (InStore P) (
            unchanged_if machine registry request state r patch_artifact workspace line now test
              source_span p)
    unchanged_if-Keeps false source_span p = read-Keeps P _
    unchanged_if-Keeps true source_span p =
        keeps-bind (InStore P) _ _ (read-Keeps P _) (λ entry. read-Keeps P _)

    unless_blocked-Keeps :
        (reason : Option String) (source_span target_span : SpanRecord) (p : Progress)
        → target_span.run_id ≡ r
        → Keeps (InStore P) (
            unless_blocked machine registry request state r patch_artifact workspace line now reason
              source_span target_span p)
    unfolding can_reuse
    unless_blocked-Keeps (some reason) source_span target_span p h =
        give_up-Keeps source_span.span_id target_span reason p h
    unless_blocked-Keeps none source_span target_span p h =
        keeps-bind (InStore P) _ _ (read-Keeps P _) (λ in_env_scope.
          keeps-bind (InStore P) _ _ (unchanged_if-Keeps _ source_span p)
            (λ reuse. reuse_or_run-Keeps reuse source_span target_span in_env_scope p h))

    satisfy_with_patch-Keeps :
        (span : SpanRecord)
        → span.run_id ≡ r
        → Keeps (InStore {W = W} P) (satisfy_with_patch machine.env request span patch_artifact now)
    unfolding satisfy_with_patch patched_artifact
    satisfy_with_patch-Keeps span h = keeps-bind (InStore P) _ _ (read-Keeps P _) (λ text.
        keeps-bind (InStore P) _ _ (calls-Keeps P W _ (new_id-Keeps P survives _)) (λ artifact_id.
          keeps-bind (InStore P) _ _ (calls-Keeps P W _ (store_patched-Keeps P survives _ text h))
            (λ stored. keeps-bind (InStore P) _ _ (read-Keeps P _) (λ outputs. read-Keeps P _))))

    satisfy_or_run-Keeps :
        (satisfied : Bool) (source_span target_span : SpanRecord) (p : Progress)
        → target_span.run_id ≡ r
        → Keeps (InStore P) (
            satisfy_or_run machine registry request state r patch_artifact workspace line now
              satisfied source_span target_span p)
    unfolding Yields
    satisfy_or_run-Keeps true source_span target_span p h =
        keeps-learn (InStore P) _ _ (satisfy_with_patch-Keeps target_span h) (λ span s t q e.
          keeps-then (InStore P) _ _
            (calls-Keeps P W _ (
              upsert_span-Keeps P survives span (
                satisfy_with_patch-Yields W machine.env request target_span patch_artifact now s t
                  span e
                ∙ h)))
            (read-Keeps P _))
    satisfy_or_run-Keeps false source_span target_span p h =
        unless_blocked-Keeps _ source_span target_span p h

    advance_before-Keeps :
        (index : Option ℕ) (skip : List SpanId)
        → Keeps (InStore P) (
            advance_before machine registry request state r patch_artifact workspace line now index
              skip)
    advance_before-Keeps none skip = read-Keeps P _
    advance_before-Keeps (some index) skip =
        advance_to-Keeps P machine line line_survives index skip

    pub replay_span-Keeps :
        (source_span : SpanRecord) (p : Progress)
        → Keeps (InStore P) (
            replay_span machine registry request state r patch_artifact workspace line now
              source_span p)
    unfolding replay_span
    replay_span-Keeps source_span p = keeps-then (InStore P) _ _ (advance_before-Keeps _ p.skip) (
        keeps-learn (InStore P) _ _ (read-Keeps P _) (λ target_span s t q e.
          satisfy_or_run-Keeps _ source_span target_span p (
            survives.span_key s.store source_span.span_id target_span q
              (looks_done (get_span r source_span.span_id) target_span s t e))))
