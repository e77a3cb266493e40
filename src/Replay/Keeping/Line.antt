-- ===== src/Replay/Keeping/Line.antt =====
-- The timeline of a replay keeps what its calls of the store keep.
use replay_kit.Common.{
  ℕ, zero, suc, ◌+◌, Bool, true, false, Option, none, some, List, length, ◌≡◌, inl, inr,
}
use replay_kit.Common.Action.{Keeps, keeps-bind, keeps-then, keeps-read}
use replay_kit.Common.Int.{ℤ}
use replay_kit.Common.Result.{Result}
use replay_kit.Common.Tests.{ltb, Bool-cases}
use replay_kit.Model.Records.{SpanId}
use replay_kit.Replay.Engine.{Machine, Session, Replaying, ReplayError, calls, on_files}
use replay_kit.Replay.Keeping.{Survives}
use replay_kit.Replay.Keeping.Writes.{point-Calls}
use replay_kit.Replay.Timeline.{
  Timeline, found, keep_archive, read_archive, cached, archive, capture_sandbox, record_at,
  record_point, set_cursor, restore_as, start, start_detached, apply_interval, advance_one,
  advance_from, advance_cursor, advance_to, record_end, finish_at, finish, item_at, last_item,
  applies,
}
use replay_kit.Storage.State.{InMemoryStorage}
use replay_kit.Workspace.Archive.{WorkspaceArchive}
use replay_kit.Workspace.Files.{FileAction}
use replay_kit.Workspace.Keeping.{record_workspace_point-Keeps}
use replay_kit.Workspace.Points.{WorkspacePhase, WorkspacePoint, Service}

module _ {W : Type 0} (P : InMemoryStorage → Type 0) where
  -- A property of the store, as one of the state of an engine at work.
  abbrev pub InStore : Session W → Type 0
  InStore s = P s.store

  pub same-Keeps :
      {A : Type 0} (m : Replaying W A)
      → ((s : Session W) → (m s).1.store ≡ s.store)
      → Keeps InStore m
  unfolding Keeps
  same-Keeps m same s p = rw (same s) p

  pub on_files-Keeps : {A : Type 0} (m : FileAction W A) → Keeps InStore (on_files m)
  unfolding Keeps
  on_files-Keeps m s p = p

  pub read-Keeps :
      {A : Type 0} (f : Session W → Result ReplayError A) → Keeps InStore (λ s. (f s, s))
  read-Keeps f = keeps-read InStore f

-- A call of the storage keeps what the storage keeps.
pub calls-Keeps :
    (P : InMemoryStorage → Type 0) (W : Type 0) {A : Type 0} (m : Service A)
    → Keeps P m
    → Keeps (InStore {W = W} P) (calls {W = W} m)
unfolding Keeps
calls-Keeps P W m k s p = k s.store p

module _ {W : Type 0} (P : InMemoryStorage → Type 0) where
  module _ (machine : Machine W) (line : Timeline)
      (survives : Survives P machine.env line.target_run_id) where
    found-Keeps : {A : Type 0} (x : Option A) → Keeps (InStore P) (found machine line x)
    found-Keeps none = read-Keeps P _
    found-Keeps (some a) = read-Keeps P _

    keep_archive-Keeps :
        (index : ℕ) (a : WorkspaceArchive) → Keeps (InStore P) (keep_archive machine line index a)
    unfolding Keeps
    keep_archive-Keeps index a s p = p

    read_archive-Keeps : (index : ℕ) → Keeps (InStore P) (read_archive machine line index)
    unfolding read_archive
    read_archive-Keeps index =
        keeps-bind (InStore P) _ _ (found-Keeps (item_at index line.points)) (λ point.
          keeps-bind (InStore P) _ _ (read-Keeps P _)
            (λ a. keeps-then (InStore P) _ _ (keep_archive-Keeps index a) (read-Keeps P _)))

    archive-Keeps : (index : ℕ) → Keeps (InStore P) (archive machine line index)
    unfolding archive
    archive-Keeps index = keeps-bind (InStore P) _ _ (read-Keeps P _) (λ slots.
        keeps-bind (InStore P) _ _ (found-Keeps (item_at index slots)) (λ slot. slot_kept slot))
      where
        slot_kept :
            (slot : Option WorkspaceArchive) → Keeps (InStore P) (cached machine line index slot)
        slot_kept none = read_archive-Keeps index
        slot_kept (some a) = read-Keeps P _

    record_at-Keeps :
        (span_id : Option SpanId) (phase : WorkspacePhase) (ordinal : ℤ) (point : WorkspacePoint)
        → Keeps (InStore P) (record_at machine line span_id phase ordinal point)
    unfolding record_at capture_sandbox
    record_at-Keeps span_id phase ordinal point = keeps-bind (InStore P) _ _ (read-Keeps P _) (λ a.
        keeps-bind (InStore P) _ _
          (calls-Keeps P W _ (
            record_workspace_point-Keeps P machine.env line.target_run_id (point-Calls P survives)
              machine.manifest_json span_id phase ordinal a _ line.created_at))
          (λ _. read-Keeps P _))

    record_point-Keeps : (index : ℕ) → Keeps (InStore P) (record_point machine line index)
    unfolding record_point
    record_point-Keeps index =
        keeps-bind (InStore P) _ _ (found-Keeps (item_at index line.points))
          (λ point. record_at-Keeps _ _ _ _)

    set_cursor-Keeps : (index : ℕ) → Keeps (InStore P) (set_cursor machine line index)
    unfolding Keeps
    set_cursor-Keeps index s p = p

    restore_as-Keeps :
        (index : ℕ) (override_archive : Option WorkspaceArchive)
        → Keeps (InStore P) (restore_as machine line index override_archive)
    restore_as-Keeps index (some a) = on_files-Keeps P _
    restore_as-Keeps index none =
        keeps-bind (InStore P) _ _ (archive-Keeps index) (λ a. on_files-Keeps P _)

    pub start-Keeps :
        (index : ℕ) (override_archive : Option WorkspaceArchive)
        → Keeps (InStore P) (start machine line index override_archive)
    unfolding start
    start-Keeps index override_archive =
        keeps-then (InStore P) _ _ (restore_as-Keeps index override_archive)
          (keeps-then (InStore P) _ _ (set_cursor-Keeps index) (record_point-Keeps index))

    pub start_detached-Keeps :
        (override_archive : Option WorkspaceArchive)
        → Keeps (InStore P) (start_detached machine line override_archive)
    unfolding start_detached
    start_detached-Keeps (some a) = on_files-Keeps P _
    start_detached-Keeps none = on_files-Keeps P _

    apply_interval-Keeps :
        (cursor : ℕ) (apply : Bool) → Keeps (InStore P) (apply_interval machine line cursor apply)
    unfolding apply_interval
    apply_interval-Keeps cursor false = read-Keeps P _
    apply_interval-Keeps cursor true = keeps-bind (InStore P) _ _ (archive-Keeps cursor) (λ earlier.
        keeps-bind (InStore P) _ _ (archive-Keeps (cursor + 1))
          (λ later. keeps-bind (InStore P) _ _ (on_files-Keeps P _) (λ _. read-Keeps P _)))

    advance_one-Keeps :
        (cursor : ℕ) (skip : List SpanId) → Keeps (InStore P) (advance_one machine line cursor skip)
    unfolding advance_one
    advance_one-Keeps cursor skip =
        keeps-bind (InStore P) _ _ (found-Keeps (item_at cursor line.owners)) (λ owner.
          keeps-then (InStore P) _ _ (apply_interval-Keeps cursor (applies skip owner)) (
            keeps-then (InStore P) _ _ (set_cursor-Keeps (cursor + 1))
              (record_point-Keeps (cursor + 1))))

    advance_from-Keeps :
        (rounds cursor : ℕ) (skip : List SpanId)
        → Keeps (InStore P) (advance_from machine line rounds cursor skip)
    unfolding advance_from
    advance_from-Keeps zero cursor skip = read-Keeps P _
    advance_from-Keeps (suc rounds) cursor skip =
        elim (Bool-cases (ltb (cursor + 1) (length line.points))) [
          | inl t ↦ rw t (
              keeps-then (InStore P) _ _ (advance_one-Keeps cursor skip)
                (advance_from-Keeps rounds (cursor + 1) skip))
          | inr f ↦ rw f (read-Keeps P _)
        ]

    pub advance_to-Keeps :
        (index : ℕ) (skip : List SpanId) → Keeps (InStore P) (advance_to machine line index skip)
    unfolding advance_to
    advance_to-Keeps index skip =
        keeps-bind (InStore P) _ _ (read-Keeps P _) (λ cursor. from cursor)
      where
        from :
            (cursor : Option ℕ) → Keeps (InStore P) (advance_cursor machine line cursor index skip)
        from none = read-Keeps P _
        from (some cursor) = advance_from-Keeps _ cursor skip

    record_end-Keeps :
        (ended : Bool) (last : WorkspacePoint)
        → Keeps (InStore P) (record_end machine line ended last)
    record_end-Keeps true last = read-Keeps P _
    record_end-Keeps false last = record_at-Keeps _ _ _ _

    finish_at-Keeps :
        (cursor : Option ℕ) (last : Option WorkspacePoint) (skip : List SpanId)
        → Keeps (InStore P) (finish_at machine line cursor last skip)
    finish_at-Keeps none last skip = read-Keeps P _
    finish_at-Keeps (some cursor) none skip = read-Keeps P _
    finish_at-Keeps (some cursor) (some last) skip =
        keeps-then (InStore P) _ _ (advance_to-Keeps _ skip)
          (keeps-then (InStore P) _ _ (record_end-Keeps _ last) (read-Keeps P _))

    pub finish-Keeps : (skip : List SpanId) → Keeps (InStore P) (finish machine line skip)
    unfolding finish
    finish-Keeps skip =
        keeps-bind (InStore P) _ _ (read-Keeps P _)
          (λ cursor. finish_at-Keeps cursor (last_item line.points) skip)
