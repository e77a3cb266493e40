-- ===== src/Diff/Artifacts.antt =====
-- `is_replay_bookkeeping` and `count_changed_artifacts`.
use replay_kit.Common.{ℕ, String, Bool, ◌||◌, List, [], ◌∷◌, keep, length, ◌++◌}
use replay_kit.Common.Eq.{◌==◌, ◌!=◌, string_eq, string_ord, option_eq, negate}
use replay_kit.Common.Map.{Map, get, insert, contains_key, map_keys}
use replay_kit.Common.Tests.{if◌then◌else◌}
use replay_kit.Model.Enums.{ArtifactType, artifact_type_eq}
use replay_kit.Model.Records.{ArtifactId, ArtifactRecord}

-- `WORKSPACE_ARCHIVE_MIME` of crates/storage/src/workspace.rs.
abbrev pub workspace_archive_mime : String
workspace_archive_mime = "application/x-replaykit-workspace"

unfoldable pub is_replay_bookkeeping : ArtifactRecord → Bool
is_replay_bookkeeping artifact =
    artifact.mime == workspace_archive_mime || artifact.artifact_type == ArtifactType.patch_manifest

-- The digests of the artifacts that count, by id: a later artifact replaces an earlier of its id.
unfoldable pub digests_from : Map ArtifactId String → List ArtifactRecord → Map ArtifactId String
digests_from m [] = m
digests_from m (artifact ∷ artifacts) =
    digests_from
      (if is_replay_bookkeeping artifact then m else insert artifact.artifact_id artifact.sha256 m)
      artifacts

abbrev pub digests : List ArtifactRecord → Map ArtifactId String
digests = digests_from []

-- The ids of either side, each once, as the set that the source collects them in holds them: those
-- of the first, and those of the second that the first lacks. Only their number is used.
unfoldable pub all_ids : Map ArtifactId String → Map ArtifactId String → List ArtifactId
all_ids source target =
    map_keys source ++ keep (λ id. negate (contains_key id source)) (map_keys target)

abbrev pub changed : Map ArtifactId String → Map ArtifactId String → ArtifactId → Bool
changed source target id = get id source != get id target

unfoldable pub count_changed_artifacts : List ArtifactRecord → List ArtifactRecord → ℕ
count_changed_artifacts source_artifacts target_artifacts =
    let source = digests source_artifacts in
    let target = digests target_artifacts in
    length (keep (changed source target) (all_ids source target))
