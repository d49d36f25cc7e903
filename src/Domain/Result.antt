-- ===== src/Domain/Result.antt =====
-- The sentinel errors of internal/core/domain/errors.go, the errors that wrap them, and how a Go
-- call ends.
use model_registry_service.Base.{String, ◌<>◌}

pub data Error : Type 0 where
  -- model registry
  model_not_found model_name_conflict version_not_found version_name_conflict : Error
  artifact_not_found invalid_model_name missing_project_id cannot_delete_model : Error
  -- serving
  serving_env_not_found inference_service_not_found serve_model_not_found : Error
  serving_env_name_conflict inference_service_name_conflict : Error
  invalid_serving_env_name invalid_serving_env_id invalid_inference_service_name : Error
  invalid_inference_service_id invalid_model_id invalid_version_id invalid_state : Error
  unsupported_framework model_has_active_deployments cannot_delete_deployed : Error
  version_not_ready serving_env_has_deployments inference_service_not_healthy : Error
  -- traffic management
  traffic_config_not_found traffic_variant_not_found invalid_variant_name : Error
  invalid_traffic_weight weight_sum_exceeds_100 variant_already_exists : Error
  canary_already_exists no_stable_variant cannot_promote_inactive : Error
  cannot_promote_stable cannot_delete_stable : Error
  -- virtual models
  virtual_model_not_found backend_not_found invalid_virtual_model_name : Error
  invalid_backend_name invalid_priority virtual_model_exists backend_already_exists : Error
  -- metrics, AI Gateway, Envoy Gateway
  metric_not_found invalid_time_range prometheus_query_failed : Error
  ai_gateway_not_available invalid_schema : Error
  envoy_backend_not_found envoy_backend_already_exists : Error
  -- what the database driver reports
  connection_failure unique_violation not_null_violation check_violation foreign_key_violation :
      Error
  -- an error with a text of its own, as a client of Kubernetes returns it
  message : String → Error
  -- `fmt.Errorf("text: %w", err)`
  wrapped : String → Error → Error

-- `errors.Is` sees through the wrappers: the error at the bottom of the chain.
unfoldable pub cause : Error → Error
cause (wrapped text e) = cause e
cause e = e

-- A call returns a value, returns an error, or panics on a nil pointer.
pub data Result {ℓ} (A : Type ℓ) : Type ℓ where
  ok : A → Result A
  err : Error → Result A
  panic : Result A

-- Error(): the text of an error, that of what it wraps behind the text that wraps it.
unfoldable pub text : Error → String
text model_not_found = "registered model not found"
text model_name_conflict = "model with this name already exists in the project"
text version_not_found = "model version not found"
text version_name_conflict = "version with this name already exists for this model"
text artifact_not_found = "model artifact not found"
text invalid_model_name = "model name is required"
text missing_project_id = "project ID is required (Project-ID header)"
text cannot_delete_model = "cannot delete model: must be archived with no READY versions"
text serving_env_not_found = "serving environment not found"
text inference_service_not_found = "inference service not found"
text serve_model_not_found = "serve model not found"
text serving_env_name_conflict = "serving environment with this name already exists in the project"
text inference_service_name_conflict = "inference service with this name already exists"
text invalid_serving_env_name = "serving environment name is required"
text invalid_serving_env_id = "serving environment ID is required"
text invalid_inference_service_name = "inference service name is required"
text invalid_inference_service_id = "inference service ID is required"
text invalid_model_id = "registered model ID is required"
text invalid_version_id = "model version ID is required"
text invalid_state = "invalid state"
text unsupported_framework =
    "unsupported model framework. Supported: sklearn, xgboost, tensorflow, pytorch, onnx, triton, lightgbm, paddle, mlflow, huggingface, pmml"
text model_has_active_deployments = "model has active deployments"
text cannot_delete_deployed = "cannot delete deployed inference service"
text version_not_ready = "model version is not ready for deployment"
text serving_env_has_deployments = "serving environment has active inference services"
text inference_service_not_healthy = "inference service is not healthy"
text traffic_config_not_found = "traffic config not found"
text traffic_variant_not_found = "traffic variant not found"
text invalid_variant_name = "variant name is required"
text invalid_traffic_weight = "traffic weight must be between 0 and 100"
text weight_sum_exceeds_100 = "total variant weights cannot exceed 100"
text variant_already_exists = "variant with this name already exists"
text canary_already_exists = "canary variant already exists"
text no_stable_variant = "no stable variant configured"
text cannot_promote_inactive = "cannot promote inactive variant"
text cannot_promote_stable = "cannot promote stable variant to itself"
text cannot_delete_stable = "cannot delete stable variant"
text virtual_model_not_found = "virtual model not found"
text backend_not_found = "backend not found"
text invalid_virtual_model_name = "virtual model name is required"
text invalid_backend_name = "backend name is required"
text invalid_priority = "priority must be >= 0"
text virtual_model_exists = "virtual model with this name already exists"
text backend_already_exists = "backend already exists for this virtual model"
text metric_not_found = "metric not found"
text invalid_time_range = "invalid time range"
text prometheus_query_failed = "prometheus query failed"
text ai_gateway_not_available = "AI Gateway integration not available"
text invalid_schema = "invalid API schema"
text envoy_backend_not_found = "envoy gateway backend not found"
text envoy_backend_already_exists = "envoy gateway backend already exists"
text connection_failure = "connection failure"
text unique_violation = "duplicate key value violates unique constraint (SQLSTATE 23505)"
text not_null_violation = "null value violates not-null constraint (SQLSTATE 23502)"
text check_violation = "new row violates check constraint (SQLSTATE 23514)"
text foreign_key_violation = "violates foreign key constraint (SQLSTATE 23503)"
text (message s) = s
text (wrapped s e) = s <> ": " <> text e
