-- ===== src/Replay/Timeline.antt =====
-- `WorkspaceTimeline` of crates/replay-engine/src/sandbox.rs: the sandbox on its way along the recorded
-- workspace points, and the points that the replay records.
use replay_kit.Common.{
  ℕ, zero, suc, ◌&&◌, ◌+◌, ◌-◌, String, Bool, true, false, Option, none, some, List, [], ◌∷◌,
  length, member, map,
}
use replay_kit.Common.Action.{ask, fail, pure, ◌>>=◌, ◌>>◌}
use replay_kit.Common.Eq.{◌==◌, string_eq, option_eq, negate}
use replay_kit.Common.Int.{ℤ}
use replay_kit.Common.Result.{ok, map_err}
use replay_kit.Common.Tests.{ltb, if◌then◌else◌}
use replay_kit.Model.Records.{RunId, SpanId}
use replay_kit.Model.Value.{Value, lookup_field}
use replay_kit.Replay.BasePoint.{position, is_before}
use replay_kit.Replay.Engine.{Machine, Replaying, calls, reads, on_files, storage, out_of_range}
use replay_kit.Workspace.Archive.{WorkspaceArchive, capture_with}
use replay_kit.Workspace.Decode.{load_workspace_archive}
use replay_kit.Workspace.Points.{
  WorkspacePhase, WorkspacePoint, record_workspace_point, next_ordinal,
}
use replay_kit.Workspace.Files.{calling}
use replay_kit.Workspace.Restore.{restore, apply_transition}

-- The fields of the timeline that stay as they are.
pub record Timeline : Type 0 where
  pub target_run_id : RunId
  pub points : List WorkspacePoint
  pub owners : List (Option SpanId)
  pub sandbox : String
  pub created_at : ℕ

abbrev pub max_workspace_bytes : ℕ
max_workspace_bytes = 268435456

-- The spans that are open, the innermost first. A span that ends closes those that began in it.
unfoldable pub close_span : SpanId → List SpanId → Option (List SpanId)
close_span span_id [] = none
close_span span_id (open_id ∷ rest) = elim (open_id == span_id) [
  | true ↦ some rest
  | false ↦ close_span span_id rest
]

abbrev pub closed_or : Option (List SpanId) → List SpanId → List SpanId
closed_or none stack = stack
closed_or (some rest) stack = rest

unfoldable pub pass_point : WorkspacePhase → Option SpanId → List SpanId → List SpanId
pass_point WorkspacePhase.before (some span_id) stack = span_id ∷ stack
pass_point WorkspacePhase.after (some span_id) stack = closed_or (close_span span_id stack) stack
pass_point WorkspacePhase.end span_id stack = []
pass_point _ none stack = stack

abbrev pub innermost : List SpanId → Option SpanId
innermost [] = none
innermost (span_id ∷ rest) = some span_id

unfoldable pub owners_from : List SpanId → List WorkspacePoint → List (Option SpanId)
owners_from stack [] = []
owners_from stack (point ∷ points) =
    let next = pass_point point.phase point.span_id stack in
    innermost next ∷ owners_from next points

unfoldable pub new_timeline : RunId → List WorkspacePoint → String → ℕ → Timeline
new_timeline target_run_id points sandbox created_at = record {
  target_run_id = target_run_id;
  points = points;
  owners = owners_from [] points;
  sandbox = sandbox;
  created_at = created_at;
}

abbrev pub no_archives : List WorkspacePoint → List (Option WorkspaceArchive)
no_archives = map (λ point. none)

module _ {A : Type 0} where
  unfoldable pub item_at : ℕ → List A → Option A
  item_at n [] = none
  item_at zero (x ∷ xs) = some x
  item_at (suc n) (x ∷ xs) = item_at n xs

  unfoldable pub set_item : ℕ → A → List A → List A
  set_item n a [] = []
  set_item zero a (x ∷ xs) = a ∷ xs
  set_item (suc n) a (x ∷ xs) = x ∷ set_item n a xs

  abbrev pub last_item : List A → Option A
  last_item [] = none
  last_item (x ∷ []) = some x
  last_item (x ∷ y ∷ xs) = last_item (y ∷ xs)

-- `workspace_root_of`.
abbrev pub root_text : Option Value → Option String
root_text (some (Value.text root)) = some root
root_text _ = none

unfoldable pub workspace_root_of : WorkspacePoint → Option String
workspace_root_of point = root_text (lookup_field "root" point.snapshot.summary)

abbrev pub text_or_default : Option String → String
text_or_default none = ""
text_or_default (some text) = text

-- The first point right before a span: the only phase that the engine asks for.
abbrev pub is_at : SpanId → WorkspacePoint → Bool
is_at span_id point = is_before point.phase && point.span_id == some span_id

unfoldable pub index_of_before : SpanId → List WorkspacePoint → Option ℕ
index_of_before span_id points = position (is_at span_id) points

-- Whether the changes of an interval are applied again: its span is neither run again nor blocked.
abbrev pub applies : List SpanId → Option SpanId → Bool
applies skip none = true
applies skip (some span_id) = negate (member span_id skip)

unfoldable pub is_end : WorkspacePhase → Bool
is_end WorkspacePhase.end = true
is_end _ = false

module _ {W : Type 0} (machine : Machine W) (line : Timeline) where
  -- What stands at an index, which panics where the index is out of range.
  abbrev pub found : {A : Type 0} → Option A → Replaying W A
  found none = fail out_of_range
  found (some a) = pure a

  abbrev pub keep_archive : ℕ → WorkspaceArchive → Replaying W (Unit {0})
  keep_archive index a s = (ok tt, record s { archives = set_item index (some a) s.archives })

  -- The archive of a point, which is read from the store when it is first asked for.
  unfoldable pub read_archive : ℕ → Replaying W WorkspaceArchive
  read_archive index = do
    point ← found (item_at index line.points)
    a ← reads (load_workspace_archive machine.read_manifest machine.env point.snapshot)
    keep_archive index a
    pure a

  abbrev pub cached : ℕ → Option WorkspaceArchive → Replaying W WorkspaceArchive
  cached index none = read_archive index
  cached index (some a) = pure a

  unfoldable pub archive : ℕ → Replaying W WorkspaceArchive
  archive index = do
    slots ← ask (λ s. s.archives)
    slot ← found (item_at index slots)
    cached index slot

  -- `WorkspaceArchive::capture` of the sandbox.
  unfoldable pub capture_sandbox : Replaying W WorkspaceArchive
  capture_sandbox s =
      let root = machine.node_at line.sandbox s.world in
      (map_err storage (capture_with machine.env [] max_workspace_bytes line.sandbox root), s)

  unfoldable pub record_at :
      Option SpanId → WorkspacePhase → ℤ → WorkspacePoint → Replaying W (Unit {0})
  record_at span_id phase ordinal point = do
    a ← capture_sandbox
    let root = text_or_default (workspace_root_of point)
    _ ← calls (
        record_workspace_point machine.env machine.manifest_json line.target_run_id span_id phase
          ordinal a root line.created_at)
    pure tt

  unfoldable pub record_point : ℕ → Replaying W (Unit {0})
  record_point index = do
    point ← found (item_at index line.points)
    record_at point.span_id point.phase point.ordinal point

  abbrev pub set_cursor : ℕ → Replaying W (Unit {0})
  set_cursor index s = (ok tt, record s { cursor = some index })

  abbrev pub restore_as : ℕ → Option WorkspaceArchive → Replaying W (Unit {0})
  restore_as index (some a) = on_files (restore machine.files line.sandbox a)
  restore_as index none = archive index >>= λ a. on_files (restore machine.files line.sandbox a)

  unfoldable pub start : ℕ → Option WorkspaceArchive → Replaying W (Unit {0})
  start index override_archive = do
    restore_as index override_archive
    set_cursor index
    record_point index

  unfoldable pub start_detached : Option WorkspaceArchive → Replaying W (Unit {0})
  start_detached (some a) = on_files (restore machine.files line.sandbox a)
  start_detached none =
      on_files (calling (machine.files.create_dir_all line.sandbox) "create sandbox" line.sandbox)

  -- The changes between two points, applied to the sandbox.
  unfoldable pub apply_interval : ℕ → Bool → Replaying W (Unit {0})
  apply_interval cursor false = pure tt
  apply_interval cursor true = do
    earlier ← archive cursor
    later ← archive (cursor + 1)
    _ ← on_files (apply_transition machine.files line.sandbox earlier later)
    pure tt

  -- One round of the loop of `advance_to`.
  unfoldable pub advance_one : ℕ → List SpanId → Replaying W (Unit {0})
  advance_one cursor skip = do
    owner ← found (item_at cursor line.owners)
    apply_interval cursor (applies skip owner)
    set_cursor (cursor + 1)
    record_point (cursor + 1)

  -- The rounds from a cursor, which are at most as many as there are points up to the index.
  unfoldable pub advance_from : ℕ → ℕ → List SpanId → Replaying W (Unit {0})
  advance_from zero cursor skip = pure tt
  advance_from (suc rounds) cursor skip =
      if ltb (cursor + 1) (length line.points)
      then advance_one cursor skip >> advance_from rounds (cursor + 1) skip
      else pure tt

  abbrev pub advance_cursor : Option ℕ → ℕ → List SpanId → Replaying W (Unit {0})
  advance_cursor none index skip = pure tt
  advance_cursor (some cursor) index skip = advance_from (index - cursor) cursor skip

  unfoldable pub advance_to : ℕ → List SpanId → Replaying W (Unit {0})
  advance_to index skip = ask (λ s. s.cursor) >>= λ cursor. advance_cursor cursor index skip

  abbrev pub record_end : Bool → WorkspacePoint → Replaying W (Unit {0})
  record_end true last = pure tt
  record_end false last = record_at none WorkspacePhase.end (next_ordinal last.ordinal) last

  abbrev pub finish_at : Option ℕ → Option WorkspacePoint → List SpanId → Replaying W Bool
  finish_at none last skip = pure false
  finish_at (some cursor) none skip = pure false
  finish_at (some cursor) (some last) skip = do
    advance_to (length line.points - 1) skip
    record_end (is_end last.phase) last
    pure true

  unfoldable pub finish : List SpanId → Replaying W Bool
  finish skip = ask (λ s. s.cursor) >>= λ cursor. finish_at cursor (last_item line.points) skip
