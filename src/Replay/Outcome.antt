-- ===== src/Replay/Outcome.antt =====
-- What follows from the rules of a replay.
use replay_kit.Common.{
  true, false, Option, none, some, List, [], ◌∷◌, ◌++◌, any, ◌≡◌, ◌≢◌, refl, ◌↔◌, inl, inr, arith,
}
use replay_kit.Common.Eq.{◌==◌, string_eq}
use replay_kit.Common.Result.{ok, err}
use replay_kit.Common.Tests.{Bool-cases}
use replay_kit.Model.Enums.{SpanStatus, RunStatus, span_status_eq}
use replay_kit.Model.Records.{ArtifactId, SpanRecord}
use replay_kit.Replay.Rules.{
  not_attached, replace_artifact_id, root_status, unblocked_status, is_blocked, is_failed,
  derive_run_status, find_root,
}

root_status-open : (status : SpanStatus) → root_status status ≢ RunStatus.blocked
unfolding root_status
root_status-open SpanStatus.completed = cc
root_status-open SpanStatus.canceled = cc
root_status-open SpanStatus.running = cc
root_status-open SpanStatus.failed = cc
root_status-open SpanStatus.skipped = cc
root_status-open SpanStatus.blocked = cc

unblocked_status-open :
    (spans : List SpanRecord) (root : Option SpanRecord)
    → unblocked_status spans root ≢ RunStatus.blocked
unfolding unblocked_status
unblocked_status-open spans (some root) = root_status-open root.status
unblocked_status-open spans none = elim (Bool-cases (any is_failed spans)) [
  | inl t ↦ λ e. cc (rw t at e)
  | inr f ↦ λ e. cc (rw f at e)
]

-- A replayed run is blocked exactly if one of its spans is.
pub derive_run_status-blocked :
    (spans : List SpanRecord)
    → (derive_run_status spans ≡ RunStatus.blocked) ↔ (any is_blocked spans ≡ true)
unfolding derive_run_status
derive_run_status-blocked spans = (there, λ t. rw t refl)
  where
    there : derive_run_status spans ≡ RunStatus.blocked → any is_blocked spans ≡ true
    there h = elim (Bool-cases (any is_blocked spans)) [
      | inl t ↦ t
      | inr f ↦ absurd (unblocked_status-open spans (find_root spans) (rw f at h))
    ]

-- The new id stands where the first of the old one stood, and the other ids where they were.
pub replace_artifact_id-first :
    (before after : List ArtifactId) (old new : ArtifactId)
    → any (λ id. id == old) before ≡ false
    → replace_artifact_id (before ++ old ∷ after) old new ≡ ok (before ++ new ∷ after)
unfolding replace_artifact_id
replace_artifact_id-first [] after old new h = ground (arith, string_eq.equal_iff old old)
replace_artifact_id-first (id ∷ before) after old new h =
    ground (arith, replace_artifact_id-first before after old new)

-- The replacement fails exactly if the old id is not there.
pub replace_artifact_id-missing :
    (ids : List ArtifactId) (old new : ArtifactId)
    → (replace_artifact_id ids old new ≡ err (not_attached old))
      ↔ (any (λ id. id == old) ids ≡ false)
unfolding replace_artifact_id
replace_artifact_id-missing [] old new = ground arith
replace_artifact_id-missing (id ∷ ids) old new =
    ground (arith, replace_artifact_id-missing ids old new)
