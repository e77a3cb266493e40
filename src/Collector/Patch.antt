-- ===== src/Collector/Patch.antt =====
-- `encode_patch_manifest` and `patch_manifest_artifact`.
use Prim.Native.String.{◌++◌}
use replay_kit.Common.{String, Option, none, some}
use replay_kit.Common.Hex.{decimal}
use replay_kit.Collector.Checks.{Host, Recording}
use replay_kit.Collector.Records.{add_artifact}
use replay_kit.Collector.Requests.{ArtifactSpec}
use replay_kit.Model.Enums.{
  PatchType, ArtifactType, prompt_edit, tool_output_override, env_var_override, model_config_edit,
  retrieval_context_override, snapshot_override, command_override, file_content_override,
}
use replay_kit.Model.Records.{RunId, BranchRequest, ArtifactRecord}
use replay_kit.Model.Value.{Value, Document, insert_field, fields_count}

-- `format!("{:?}", patch_type)`.
unfoldable pub patch_type_name : PatchType → String
patch_type_name prompt_edit = "PromptEdit"
patch_type_name tool_output_override = "ToolOutputOverride"
patch_type_name env_var_override = "EnvVarOverride"
patch_type_name model_config_edit = "ModelConfigEdit"
patch_type_name retrieval_context_override = "RetrievalContextOverride"
patch_type_name snapshot_override = "SnapshotOverride"
patch_type_name command_override = "CommandOverride"
patch_type_name file_content_override = "FileContentOverride"

abbrev pub insert_text : String → Option String → Document → Document
unfolding insert_field
insert_text k none d = d
insert_text k (some text) d = insert_field k (Value.text text) d

unfoldable pub encode_patch_manifest : BranchRequest → Document
unfolding insert_field insert_text patch_type_name
encode_patch_manifest request =
    let manifest = request.patch_manifest in
    let start = insert_field "replacement" manifest.replacement (
      insert_field "patch_type" (Value.text (patch_type_name manifest.patch_type))
        Document.empty) in
    let optional =
      insert_text "target_artifact_id" manifest.target_artifact_id
        (insert_text "note" manifest.note start) in
    insert_field "source_run_id" (Value.text request.source_run_id)
      (insert_field "fork_span_id" (Value.text request.fork_span_id) optional)

unfoldable pub patch_manifest_spec : BranchRequest → ArtifactSpec
unfolding encode_patch_manifest fields_count
patch_manifest_spec request =
    let summary = encode_patch_manifest request in
    record {
      artifact_type = ArtifactType.patch_manifest;
      mime = "application/replaykit-patch";
      sha256 =
          "patch:"
          ++ request.source_run_id
          ++ ":"
          ++ request.fork_span_id
          ++ ":"
          ++ decimal request.patch_manifest.created_at;
      byte_len = fields_count summary;
      blob_path = "memory://patch/" ++ request.fork_span_id;
      summary = summary;
      redaction = Document.empty;
      created_at = request.patch_manifest.created_at;
      content = none;
    }

unfoldable pub patch_manifest_artifact : Host → RunId → BranchRequest → Recording ArtifactRecord
unfolding patch_manifest_spec
patch_manifest_artifact host run_id request =
    add_artifact host run_id (some request.fork_span_id) (patch_manifest_spec request)
