-- ===== src/Collector/Integrity/Checks.antt =====
-- The checks of the collector change nothing.
use replay_kit.Common.{String, Option, none, some}
use replay_kit.Common.Action.{Keeps, keeps-bind, keeps-read}
use replay_kit.Collector.Checks.{
  Host, ensure_run_exists, ensure_span_exists, ensure_optional_span, ensure_attached,
  lookup_artifact,
}
use replay_kit.Collector.Integrity.{Sound, refuse_unless-Keeps}
use replay_kit.Collector.Requests.{Refusal}
use replay_kit.Model.Records.{RunId, SpanId, ArtifactId}

pub ensure_run_exists-Keeps : (run_id : RunId) → Keeps Sound (ensure_run_exists run_id)
unfolding ensure_run_exists
ensure_run_exists-Keeps run_id =
    keeps-bind Sound _ _ (keeps-read Sound _) (λ run. keeps-read Sound _)

pub ensure_span_exists-Keeps :
    (run_id : RunId) (span_id : SpanId) → Keeps Sound (ensure_span_exists run_id span_id)
unfolding ensure_span_exists
ensure_span_exists-Keeps run_id span_id =
    keeps-bind Sound _ _ (keeps-read Sound _) (λ span. keeps-read Sound _)

pub ensure_optional_span-Keeps :
    (run_id : RunId) (span_id : Option SpanId) → Keeps Sound (ensure_optional_span run_id span_id)
unfolding ensure_optional_span
ensure_optional_span-Keeps run_id none = keeps-read Sound _
ensure_optional_span-Keeps run_id (some span_id) = ensure_span_exists-Keeps run_id span_id

pub ensure_attached-Keeps :
    (existing : Option SpanId) (id : String) (span_id : SpanId) (label : String)
    → Keeps Sound (ensure_attached existing id span_id label)
unfolding ensure_attached
ensure_attached-Keeps none id span_id label = keeps-read Sound _
ensure_attached-Keeps (some existing) id span_id label = refuse_unless-Keeps _ _

pub lookup_artifact-Keeps :
    (host : Host) (run_id : RunId) (id : ArtifactId) (refusal : Refusal)
    → Keeps Sound (lookup_artifact host run_id id refusal)
unfolding lookup_artifact
lookup_artifact-Keeps host run_id id refusal = keeps-read Sound _
