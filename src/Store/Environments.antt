-- ===== src/Store/Environments.antt =====
-- The writes of serving_environment_repo.go, and the statements of inference_service_repo.go that only
-- its service calls, under the constraints of migrations/000002 and 000003.

pub mod Links
use model_registry_service.Base.{
  ℕ, String, Bool, true, false, not, ◌&&◌, ◌||◌, Option, none, some, List, [], ◌∷◌, ◌++◌, ◌==◌,
  if◌then◌else◌, str_eq, keep, length,
}
use model_registry_service.Domain.Result.{
  serving_env_not_found, serving_env_name_conflict, serving_env_has_deployments,
  inference_service_not_found,
}
use model_registry_service.Domain.Traffic.{Uuid, Time, TrafficConfig, TrafficVariant}
use model_registry_service.Domain.Serving.{ServingEnvironment, InferenceService, ServeModel}
use model_registry_service.Store.World.{
  Oracle, World, M, gets, pure, modify, or_raise, raise_if, ◌>>=◌, ◌>>◌, wrapping, time_now,
  reach_database,
}
use model_registry_service.Store.Serving.{environment_row, isvc_row}

-- The primary key, and uq_serving_environment_project_name.
unfoldable pub env_clashes : ServingEnvironment → List ServingEnvironment → Bool
env_clashes e [] = false
env_clashes e (r ∷ rs) =
    (r.id == e.id || (r.project_id == e.project_id && str_eq r.name e.name)) || env_clashes e rs

-- The same among the other rows, for a row that is rewritten.
unfoldable pub env_name_taken : Uuid → Uuid → String → List ServingEnvironment → Bool
env_name_taken self project_id name [] = false
env_name_taken self project_id name (r ∷ rs) =
    (not (r.id == self) && (r.project_id == project_id && str_eq r.name name))
    || env_name_taken self project_id name rs

unfoldable pub update_envs :
    Time → Uuid → ServingEnvironment → List ServingEnvironment → List ServingEnvironment
update_envs now project_id e [] = []
update_envs now project_id e (r ∷ rs) =
    (if r.id == e.id && r.project_id == project_id
      then record r {
        name = e.name;
        description = e.description;
        external_id = e.external_id;
        updated_at = now;
      }
      else r)
    ∷ update_envs now project_id e rs

-- fk_inference_service_serving_environment, ON DELETE RESTRICT
unfoldable pub has_services : Uuid → List InferenceService → Bool
has_services id [] = false
has_services id (s ∷ ss) = s.serving_environment_id == id || has_services id ss

-- The configurations of a service, which fk_traffic_config_inference_service removes.
abbrev pub is_config_of : Uuid → TrafficConfig → Bool
is_config_of id c = c.inference_service_id == id

-- The variants that fk_traffic_variant_config removes with them.
unfoldable pub is_variant_of : Uuid → List TrafficConfig → TrafficVariant → Bool
is_variant_of id [] v = false
is_variant_of id (c ∷ cs) v =
    (is_config_of id c && v.traffic_config_id == c.id) || is_variant_of id cs v

module _ (E : Oracle) where
  -- servingEnvironmentRepo.Create
  unfoldable pub env_create : ServingEnvironment → M (Unit {0})
  env_create e = do
    wrapping "create serving environment" (reach_database E)
    rows ← gets (λ w. w.environments)
    raise_if (env_clashes e rows) serving_env_name_conflict
    modify (λ w. record w { environments = rows ++ e ∷ [] })

  -- servingEnvironmentRepo.Update
  unfoldable pub env_update : Uuid → ServingEnvironment → M (Unit {0})
  env_update project_id e = do
    wrapping "update serving environment" (reach_database E)
    rows ← gets (λ w. w.environments)
    row ← or_raise serving_env_not_found (environment_row project_id e.id rows)
    raise_if (env_name_taken e.id project_id e.name rows) serving_env_name_conflict
    now ← time_now E
    modify (λ w. record w { environments = update_envs now project_id e rows })

  -- servingEnvironmentRepo.Delete
  unfoldable pub env_delete : Uuid → Uuid → M (Unit {0})
  env_delete project_id id = do
    wrapping "delete serving environment" (reach_database E)
    rows ← gets (λ w. w.environments)
    row ← or_raise serving_env_not_found (environment_row project_id id rows)
    services ← gets (λ w. w.services)
    raise_if (has_services id services) serving_env_has_deployments
    modify λ w. record w {
      environments = keep (λ e. not (e.id == id && e.project_id == project_id)) rows;
    }

  -- CountByEnvironment
  unfoldable pub count_by_environment : Uuid → Uuid → M ℕ
  count_by_environment project_id env_id = do
    wrapping "count inference services by environment" (reach_database E)
    rows ← gets (λ w. w.services)
    pure
        (length (keep (λ s. s.project_id == project_id && s.serving_environment_id == env_id) rows))

  -- inferenceServiceRepo.Delete, with what the foreign keys remove.
  unfoldable pub isvc_delete : Uuid → Uuid → M (Unit {0})
  isvc_delete project_id id = do
    wrapping "delete inference service" (reach_database E)
    rows ← gets (λ w. w.services)
    row ← or_raise inference_service_not_found (isvc_row project_id id rows)
    modify λ w. record w {
      services = keep (λ s. not (s.id == id && s.project_id == project_id)) rows;
      serve_models = keep (λ m. not (m.inference_service_id == id)) w.serve_models;
      configs = keep (λ c. not (is_config_of id c)) w.configs;
      variants = keep (λ v. not (is_variant_of id w.configs v)) w.variants;
    }
