-- ===== src/Traffic/Route.antt =====
-- GetConfig, the helpers that traffic.go repeats in its operations, and syncAIGatewayRoute.
pub mod Silent
pub mod Sync
pub mod Config
pub mod Calm
use model_registry_service.Base.{
  ℕ, String, Bool, true, false, not, ◌&&◌, Option, none, some, List, [], ◌∷◌, map, ltb,
  if◌then◌else◌, str_eq, keep,
}
use model_registry_service.Domain.Result.{Result}
use model_registry_service.Domain.Traffic.{
  Uuid, TrafficVariant, TrafficConfig, is_active, serves_traffic,
}
use model_registry_service.Domain.Serving.{
  ServingEnvironment, InferenceService, InferenceServiceState,
}
use model_registry_service.Domain.Registry.{ModelVersion}
use model_registry_service.Store.World.{
  Oracle, World, M, Call, WeightedBackend, AiGatewayRoute, KserveDeployment, pure, lift, deref,
  ◌>>=◌, ◌>>◌, attempt, ignore, tick, log_call, from_reply, new_uuid,
}
use model_registry_service.Store.Variants.{variant_list_by_config}
use model_registry_service.Store.Configs.{config_get_by_id}
use model_registry_service.Store.Serving.{env_get_by_id, isvc_get_by_id}

-- namespace := env.Name; if env.ExternalID != "" { namespace = env.ExternalID }
unfoldable pub namespace_of : ServingEnvironment → String
namespace_of env = if str_eq env.external_id "" then env.name else env.external_id

-- One backend of the route for each variant that is active with a weight above zero.
unfoldable pub backend_of : TrafficVariant → WeightedBackend
backend_of v = record { name = v.kserve_isvc_name; weight = v.weight; variant_tag = v.variant_name }

unfoldable pub backends_of : List TrafficVariant → List WeightedBackend
unfolding backend_of
backends_of variants = map backend_of (keep serves_traffic variants)

module _ (E : Oracle) where
  -- output.AIGatewayClient
  gateway_call : Call → M (Unit {0})
  gateway_call c = do log_call c; k ← tick; lift (from_reply (E.gateway_answers k))

  unfoldable pub gateway_create_route : AiGatewayRoute → M (Unit {0})
  unfolding gateway_call
  gateway_create_route route = gateway_call (Call.create_route route)

  unfoldable pub gateway_delete_route : String → String → M (Unit {0})
  unfolding gateway_call
  gateway_delete_route namespace name = gateway_call (Call.delete_route namespace name)

  unfoldable pub gateway_update_weights : String → String → List WeightedBackend → M (Unit {0})
  unfolding gateway_call
  gateway_update_weights namespace name backends =
      gateway_call (Call.update_weights namespace name backends)

  -- output.KServeClient
  unfoldable pub kserve_deploy : String → InferenceService → ModelVersion → M KserveDeployment
  kserve_deploy namespace isvc version = do
    log_call (Call.kserve_deploy namespace isvc version)
    k ← tick
    lift (from_reply (E.kserve_deploys k))

  unfoldable pub kserve_undeploy : String → String → M (Unit {0})
  kserve_undeploy namespace name = do
    log_call (Call.kserve_undeploy namespace name)
    k ← tick
    lift (from_reply (E.kserve_undeploys k))

  -- GetConfig
  unfoldable pub get_config : Uuid → Uuid → M TrafficConfig
  get_config project_id id = do
    config ← config_get_by_id E project_id id
    variants ← variant_list_by_config E config.id
    pure (record config { variants = variants })

  -- The service of a variant, a copy of the stable one under another name.
  unfoldable pub variant_service : Uuid → InferenceService → String → M InferenceService
  variant_service project_id isvc name = do
    id ← new_uuid E
    pure (record {
      id = id;
      created_at = 0;
      updated_at = 0;
      project_id = project_id;
      name = name;
      external_id = "";
      serving_environment_id = isvc.serving_environment_id;
      registered_model_id = isvc.registered_model_id;
      desired_state = InferenceServiceState.deployed;
      current_state = InferenceServiceState.undeployed;
      runtime = isvc.runtime;
      url = "";
      last_error = "";
    })

  -- The removal of a variant's service: nothing if there is no client or no service of that name.
  undeploy_in : Uuid → String → Option InferenceService → M (Unit {0})
  undeploy_in project_id name none = pure tt
  undeploy_in project_id name (some isvc) = do
    found ← attempt (env_get_by_id E project_id isvc.serving_environment_id)
    env ← deref found
    ignore (kserve_undeploy (namespace_of env) name)

  undeploy_named : Uuid → TrafficConfig → String → M (Unit {0})
  unfolding undeploy_in
  undeploy_named project_id config name = do
    isvc ← attempt (isvc_get_by_id E project_id config.inference_service_id)
    undeploy_in project_id name isvc

  unfoldable pub undeploy_variant : Uuid → TrafficConfig → TrafficVariant → M (Unit {0})
  unfolding undeploy_named
  undeploy_variant project_id config v =
      if E.kserve_available && not (str_eq v.kserve_isvc_name "")
      then undeploy_named project_id config v.kserve_isvc_name
      else pure tt

  sync_in : TrafficConfig → List TrafficVariant → Option InferenceService → M (Unit {0})
  sync_in config variants none = pure tt
  sync_in config variants (some isvc) = do
    found ← attempt (env_get_by_id E config.project_id isvc.serving_environment_id)
    env ← deref found
    gateway_update_weights (namespace_of env) config.ai_gateway_route_name (backends_of variants)

  -- The part behind the guards: the variants are read again, then the backends are pushed.
  push_route : TrafficConfig → M (Unit {0})
  unfolding sync_in
  push_route config = do
    variants ← variant_list_by_config E config.id
    isvc ← attempt (isvc_get_by_id E config.project_id config.inference_service_id)
    sync_in config variants isvc

  -- syncAIGatewayRoute
  unfoldable pub sync_ai_gateway_route : TrafficConfig → M (Unit {0})
  unfolding push_route
  sync_ai_gateway_route config =
      if E.gateway_available && not (str_eq config.ai_gateway_route_name "")
      then push_route config
      else pure tt
