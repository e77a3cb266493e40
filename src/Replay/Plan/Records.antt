-- ===== src/Replay/Plan/Records.antt =====
-- The records of a plan, the warnings about the workspace, and the archive that a patch names:
-- `snapshot_override_archive`.
use Prim.Native.String.{◌++◌}
use replay_kit.Common.{ℕ, String, true, false, Option, none, some, List, [], ◌∷◌, find, push_back}
use replay_kit.Common.Eq.{◌==◌, ◌!=◌, string_eq, string_ord, option_eq}
use replay_kit.Common.Map.{Map, insert}
use replay_kit.Common.Result.{Result, ok, err, ok_or, map_err, map_ok, ◌>>=◌}
use replay_kit.Common.Text.{trim}
use replay_kit.Common.Tests.{if◌then◌else◌}
use replay_kit.Model.Enums.{PatchType, span_kind_eq}
use replay_kit.Model.Records.{RunId, SpanId, SpanRecord, DirtySpanRecord, BranchRequest}
use replay_kit.Replay.Engine.{ReplayError, storage, invalid_patch, out_of_range, Machine}
use replay_kit.Replay.Inputs.{PatchInputs, replacement_text}
use replay_kit.Replay.Layout.{Layout}
use replay_kit.Replay.Rules.{no_text, no_workspace_of}
use replay_kit.Replay.Timeline.{item_at, max_workspace_bytes}
use replay_kit.Storage.State.{InMemoryStorage}
use replay_kit.Workspace.Archive.{WorkspaceArchive, capture_with}
use replay_kit.Workspace.Decode.{load_workspace_archive}
use replay_kit.Workspace.Points.{WorkspacePoint}

pub record BlockedSpanRecord : Type 0 where
  pub span_id : SpanId
  pub reason : String

pub record BranchPlan : Type 0 where
  pub source_run_id : RunId
  pub fork_span_id : SpanId
  pub dirty_spans : List DirtySpanRecord
  pub blocked_spans : List SpanId
  pub reusable_spans : List SpanId
  pub blocked : List BlockedSpanRecord
  pub warnings : List String
  pub rollup_spans : List SpanId

pub record PlanState : Type 0 where
  pub plan : BranchPlan
  pub layout : Layout
  pub blocked : Map SpanId String
  pub rollup : List SpanId
  pub env_scope : Option SpanId
  pub override_archive : Option WorkspaceArchive

-- What the loop over the dirty spans has found so far.
pub record Prediction : Type 0 where
  pub blocked : Map SpanId String
  pub warnings : List String

unfoldable pub block : SpanId → String → Prediction → Prediction
block span_id reason p = record p { blocked = insert span_id reason p.blocked }

unfoldable pub warn : String → Prediction → Prediction
warn warning p = record p { warnings = push_back p.warnings warning }

-- The warnings about the workspace.
unfoldable pub far_base : WorkspacePoint → SpanRecord → List String
far_base point first =
    if point.span_id != some first.span_id
    then ("no workspace snapshot was recorded right before " ++ first.span_id
        ++ "; the sandbox starts from the nearest earlier snapshot")
      ∷ []
    else []

unfoldable pub base_warnings :
    List WorkspacePoint → Option ℕ → Option SpanRecord → Result ReplayError (List String)
base_warnings [] base first = ok (
    "the source run has no workspace snapshots (record it with a workspace_root): replayed spans run in an empty scratch sandbox"
    ∷ [])
base_warnings (point ∷ points) none first = ok (
    "no workspace snapshot precedes the first dirty span: replayed spans run in an empty scratch sandbox"
    ∷ [])
base_warnings (point ∷ points) (some base) none = ok []
base_warnings (point ∷ points) (some base) (some first) =
    map_ok (λ chosen. far_base chosen first) (ok_or (item_at base (point ∷ points)) out_of_range)

-- `dedup`: of equal neighbours the first is kept.
unfoldable pub dedup : List String → List String
dedup [] = []
dedup (x ∷ []) = x ∷ []
dedup (x ∷ y ∷ rest) = let more = dedup (y ∷ rest) in if x == y then more else x ∷ more

abbrev pub waits_message : SpanId → String
waits_message up = "upstream span " ++ up ++ " did not complete: it is blocked"

abbrev pub patch_env_scope : PatchInputs → SpanId → Option SpanId
patch_env_scope patch fork_span_id = elim patch.env [ [] ↦ none | _ ∷ _ ↦ some fork_span_id ]

module _ {W : Type 0} (machine : Machine W) where
  abbrev pub chosen_archive :
      String → Option WorkspacePoint → InMemoryStorage → W → Result ReplayError WorkspaceArchive
  chosen_archive reference (some point) st w =
      map_err storage (load_workspace_archive machine.read_manifest machine.env point.snapshot st)
  chosen_archive reference none st w = elim (machine.files.is_dir reference w) [
    | true ↦
        map_err storage
          (capture_with machine.env [] max_workspace_bytes reference (machine.node_at reference w))
    | false ↦ err (invalid_patch (no_workspace_of reference))
  ]

  unfoldable pub snapshot_override_archive :
      BranchRequest
      → List WorkspacePoint
      → InMemoryStorage
      → W
      → Result ReplayError WorkspaceArchive
  snapshot_override_archive request points st w =
      map_err (λ e. invalid_patch (no_text e)) (replacement_text request.patch_manifest.replacement)
      >>= λ text.
          let reference = trim text in
          chosen_archive reference (find (λ point. point.snapshot.snapshot_id == reference) points)
            st w

  unfoldable pub override_of :
      PatchType
      → BranchRequest
      → List WorkspacePoint
      → InMemoryStorage
      → W
      → Result ReplayError (Option WorkspaceArchive)
  override_of PatchType.snapshot_override request points st w =
      map_ok some (snapshot_override_archive request points st w)
  override_of _ request points st w = ok none
