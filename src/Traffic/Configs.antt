-- ===== src/Traffic/Configs.antt =====
-- CreateConfig and DeleteConfig of traffic.go.
pub mod Creation
use model_registry_service.Base.{
  ℕ, String, Bool, true, false, ◌&&◌, Option, none, some, List, [], ◌∷◌, if◌then◌else◌, str_eq, not,
  ◌<>◌, pos,
}
use model_registry_service.Domain.Traffic.{
  Uuid, TrafficStrategy, TrafficVariant, TrafficConfig, new_traffic_config, new_traffic_variant,
  activate,
}
use model_registry_service.Domain.Serving.{InferenceService}
use model_registry_service.Store.World.{
  Oracle, World, M, AiGatewayRoute, pure, lift, deref, ◌>>=◌, ◌>>◌, attempt, ignore, new_uuid,
  time_now,
}
use model_registry_service.Store.Variants.{variant_create, variant_delete_by_config}
use model_registry_service.Store.Configs.{
  config_create, config_get_by_id, config_update, config_delete,
}
use model_registry_service.Store.Serving.{env_get_by_id, isvc_get_by_id, version_get_by_id}
use model_registry_service.Traffic.Route.{
  namespace_of, get_config, gateway_create_route, gateway_delete_route,
}

pub record CreateTrafficConfigRequest : Type 0 where
  pub project_id : Uuid
  pub inference_service_id : Uuid
  pub strategy : TrafficStrategy
  pub stable_version_id : Uuid

module _ (E : Oracle) where
  -- The route's name is kept only if the gateway took the route.
  record_route : Uuid → TrafficConfig → String → Option (Unit {0}) → M (Unit {0})
  record_route project_id config name none = pure tt
  record_route project_id config name (some _) =
      ignore (config_update E project_id (record config { ai_gateway_route_name = name }))

  create_route_for : Uuid → TrafficConfig → InferenceService → M (Unit {0})
  unfolding record_route
  create_route_for project_id config isvc = do
    found ← attempt (env_get_by_id E project_id isvc.serving_environment_id)
    env ← deref found
    let name = "traffic-" <> E.uuid_prefix config.id
    created ← attempt (
        gateway_create_route E (record {
          name = name;
          namespace = namespace_of env;
          model_name = isvc.name;
          backends = record { name = isvc.name; weight = 100; variant_tag = "stable" } ∷ [];
          label = config.id;
        }))
    record_route project_id config name created

  -- CreateConfig
  unfoldable pub create_config : CreateTrafficConfigRequest → M TrafficConfig
  unfolding create_route_for
  create_config req = do
    isvc ← isvc_get_by_id E req.project_id req.inference_service_id
    version ← version_get_by_id E req.project_id req.stable_version_id
    id ← new_uuid E
    now ← time_now E
    config ← lift (new_traffic_config id now req.project_id req.inference_service_id req.strategy)
    config_create E config
    variant_id ← new_uuid E
    created ← time_now E
    stable ←
        lift (
          new_traffic_variant variant_id created config.id req.stable_version_id "stable" (pos 100))
    activated ← time_now E
    variant_create E (activate activated (record stable { kserve_isvc_name = isvc.name }))
    if E.gateway_available then create_route_for req.project_id config isvc else pure tt
    get_config E req.project_id config.id

  remove_route_in : Uuid → TrafficConfig → Option InferenceService → M (Unit {0})
  remove_route_in project_id config none = pure tt
  remove_route_in project_id config (some isvc) = do
    found ← attempt (env_get_by_id E project_id isvc.serving_environment_id)
    env ← deref found
    ignore (gateway_delete_route E (namespace_of env) config.ai_gateway_route_name)

  run_removal : Uuid → TrafficConfig → M (Unit {0})
  unfolding remove_route_in
  run_removal project_id config = do
    isvc ← attempt (isvc_get_by_id E project_id config.inference_service_id)
    remove_route_in project_id config isvc

  remove_route : Uuid → TrafficConfig → M (Unit {0})
  unfolding run_removal
  remove_route project_id config =
      if not (str_eq config.ai_gateway_route_name "") && E.gateway_available
      then run_removal project_id config
      else pure tt

  -- DeleteConfig
  unfoldable pub delete_config : Uuid → Uuid → M (Unit {0})
  unfolding remove_route
  delete_config project_id id = do
    config ← config_get_by_id E project_id id
    remove_route project_id config
    variant_delete_by_config E id
    config_delete E project_id id
