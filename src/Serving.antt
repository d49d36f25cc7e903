-- ===== src/Serving.antt =====
-- internal/core/services/serving-environment.go, inference-service.go and serve-model.go, without
-- labels and the Update of an inference service, whose states may be any text.

pub mod Sessions
pub mod Deletion
use model_registry_service.Base.{
  ℕ, String, Bool, true, false, not, ◌&&◌, Option, none, some, if◌then◌else◌, str_eq, ltb,
}
use model_registry_service.Domain.Result.{
  Result, ok, serving_env_has_deployments, cannot_delete_deployed,
}
use model_registry_service.Domain.Traffic.{Uuid, Time}
use model_registry_service.Domain.Serving.{
  ServingEnvironment, InferenceService, ServeModel, ServeModelState, new_serving_environment,
  update_environment, new_inference_service, new_serve_model, is_deployed, or_else,
}
use model_registry_service.Store.World.{
  Oracle, M, pure, lift, raise_if, ◌>>=◌, ◌>>◌, attempt, ignore, new_uuid, time_now,
}
use model_registry_service.Store.Serving.{
  env_get_by_id, isvc_get_by_id, isvc_create, model_get_by_id, version_get_by_id,
  serve_model_create, serve_model_get_by_id, serve_model_update, serve_model_delete,
}
use model_registry_service.Store.Environments.{
  env_create, env_update, env_delete, count_by_environment, isvc_delete,
}
use model_registry_service.Traffic.Route.{kserve_undeploy}

module _ (E : Oracle) where
  -- ServingEnvironmentService.Create
  unfoldable pub create_environment : Uuid → String → String → String → M ServingEnvironment
  create_environment project_id name description external_id = do
    id ← new_uuid E
    now ← time_now E
    env ← lift (new_serving_environment id now project_id name description)
    env_create E (record env { external_id = external_id })
    env_get_by_id E project_id env.id

  -- ServingEnvironmentService.Update
  unfoldable pub change_environment :
      Uuid → Uuid → Option String → Option String → Option String → M ServingEnvironment
  change_environment project_id id name description external_id = do
    env ← env_get_by_id E project_id id
    now ← time_now E
    env_update E project_id (record env {
      name = or_else name env.name;
      description = or_else description env.description;
      external_id = or_else external_id env.external_id;
      updated_at = now;
    })
    env_get_by_id E project_id id

  -- ServingEnvironmentService.Delete
  unfoldable pub delete_environment : Uuid → Uuid → M (Unit {0})
  delete_environment project_id id = do
    count ← count_by_environment E project_id id
    raise_if (ltb 0 count) serving_env_has_deployments
    env_delete E project_id id

  -- InferenceServiceService.Create
  unfoldable pub create_service : Uuid → String → Uuid → Uuid → String → M InferenceService
  create_service project_id name env_id model_id runtime = do
    env ← env_get_by_id E project_id env_id
    model ← model_get_by_id E project_id model_id
    id ← new_uuid E
    now ← time_now E
    isvc ← lift (new_inference_service id now project_id name env_id model_id)
    isvc_create E (record isvc { runtime = if str_eq runtime "" then isvc.runtime else runtime })
    isvc_get_by_id E project_id isvc.id

  -- The cleanup of InferenceServiceService.Delete, where the environment was found.
  unfoldable pub clean_up : InferenceService → Option ServingEnvironment → M (Unit {0})
  clean_up isvc none = pure tt
  clean_up isvc (some env) = ignore (kserve_undeploy E env.name isvc.name)

  -- InferenceServiceService.Delete
  unfoldable pub delete_service : Uuid → Uuid → M (Unit {0})
  unfolding clean_up
  delete_service project_id id = do
    isvc ← isvc_get_by_id E project_id id
    raise_if (is_deployed isvc) cannot_delete_deployed
    if not (str_eq isvc.name "") && E.kserve_available
        then (attempt (env_get_by_id E project_id isvc.serving_environment_id) >>= clean_up isvc)
        else pure tt
    isvc_delete E project_id id

  -- ServeModelService.Create
  unfoldable pub create_serve_model : Uuid → Uuid → Uuid → M ServeModel
  create_serve_model project_id isvc_id version_id = do
    isvc ← isvc_get_by_id E project_id isvc_id
    version ← version_get_by_id E project_id version_id
    id ← new_uuid E
    now ← time_now E
    made ← lift (new_serve_model id now project_id isvc_id version_id)
    serve_model_create E made
    serve_model_get_by_id E project_id made.id

  -- ServeModelService.UpdateState
  unfoldable pub update_state : Uuid → Uuid → ServeModelState → M ServeModel
  update_state project_id id state = do
    m ← serve_model_get_by_id E project_id id
    now ← time_now E
    serve_model_update E project_id (record m { last_known_state = state; updated_at = now })
    serve_model_get_by_id E project_id id

  -- ServeModelService.Delete
  unfoldable pub delete_serve_model : Uuid → Uuid → M (Unit {0})
  delete_serve_model project_id id = serve_model_delete E project_id id
