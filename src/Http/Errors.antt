-- ===== src/Http/Errors.antt =====
-- mapDomainError of internal/adapters/primary/http/handlers/error-mapper.go: the status and the text
-- of an error. Each case asks errors.Is, so that wrappers count for the text alone.
pub mod Statuses
use model_registry_service.Base.{ℕ, String, Bool, true, false, if◌then◌else◌}
use model_registry_service.Domain.Result.{Error, cause, text}

pub data Kind : Type 0 where
  not_found conflict invalid unavailable internal : Kind

-- The case of a sentinel error.
unfoldable pub kind : Error → Kind
kind Error.model_not_found = Kind.not_found
kind Error.version_not_found = Kind.not_found
kind Error.artifact_not_found = Kind.not_found
kind Error.serving_env_not_found = Kind.not_found
kind Error.inference_service_not_found = Kind.not_found
kind Error.serve_model_not_found = Kind.not_found
kind Error.traffic_config_not_found = Kind.not_found
kind Error.traffic_variant_not_found = Kind.not_found
kind Error.virtual_model_not_found = Kind.not_found
kind Error.backend_not_found = Kind.not_found
kind Error.envoy_backend_not_found = Kind.not_found
kind Error.model_name_conflict = Kind.conflict
kind Error.version_name_conflict = Kind.conflict
kind Error.serving_env_name_conflict = Kind.conflict
kind Error.inference_service_name_conflict = Kind.conflict
kind Error.variant_already_exists = Kind.conflict
kind Error.canary_already_exists = Kind.conflict
kind Error.virtual_model_exists = Kind.conflict
kind Error.backend_already_exists = Kind.conflict
kind Error.envoy_backend_already_exists = Kind.conflict
kind Error.invalid_model_name = Kind.invalid
kind Error.missing_project_id = Kind.invalid
kind Error.cannot_delete_model = Kind.invalid
kind Error.invalid_serving_env_name = Kind.invalid
kind Error.invalid_serving_env_id = Kind.invalid
kind Error.invalid_inference_service_name = Kind.invalid
kind Error.invalid_inference_service_id = Kind.invalid
kind Error.invalid_model_id = Kind.invalid
kind Error.invalid_version_id = Kind.invalid
kind Error.invalid_state = Kind.invalid
kind Error.serving_env_has_deployments = Kind.invalid
kind Error.cannot_delete_deployed = Kind.invalid
kind Error.version_not_ready = Kind.invalid
kind Error.model_has_active_deployments = Kind.invalid
kind Error.invalid_variant_name = Kind.invalid
kind Error.invalid_traffic_weight = Kind.invalid
kind Error.weight_sum_exceeds_100 = Kind.invalid
kind Error.no_stable_variant = Kind.invalid
kind Error.cannot_promote_inactive = Kind.invalid
kind Error.cannot_promote_stable = Kind.invalid
kind Error.cannot_delete_stable = Kind.invalid
kind Error.invalid_virtual_model_name = Kind.invalid
kind Error.invalid_backend_name = Kind.invalid
kind Error.invalid_priority = Kind.invalid
kind Error.invalid_schema = Kind.invalid
kind Error.ai_gateway_not_available = Kind.unavailable
kind _ = Kind.internal

abbrev pub code : Kind → ℕ
code not_found = 404
code conflict = 409
code invalid = 400
code unavailable = 503
code internal = 500

unfoldable pub status_of : Error → ℕ
unfolding kind
status_of e = code (kind (cause e))

abbrev pub said : Kind → String → String
said internal s = "internal server error"
said _ s = s

unfoldable pub shown : Error → String
unfolding kind text
shown e = said (kind (cause e)) (text e)
