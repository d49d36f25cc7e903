-- ===== src/Traffic/Canary.antt =====
-- StartCanary, UpdateCanaryWeight, PromoteCanary and Rollback of traffic.go.
pub mod Silent
pub mod Promotion
pub mod Weights
pub mod Success
use model_registry_service.Base.{
  ℕ, String, Bool, true, false, not, ◌&&◌, ◌||◌, Option, none, some, List, [], ◌∷◌, if◌then◌else◌,
  str_eq, ◌<>◌, ℤ, pos, ltb_ℤ, ◌-ℤ◌,
}
use model_registry_service.Domain.Result.{
  canary_already_exists, invalid_traffic_weight, traffic_variant_not_found, cannot_promote_inactive,
}
use model_registry_service.Domain.Traffic.{
  Uuid, TrafficVariant, TrafficConfig, is_active, out_of_range, new_traffic_variant, set_weight,
  activate, deactivate,
}
use model_registry_service.Domain.Serving.{InferenceService, ServingEnvironment}
use model_registry_service.Domain.Registry.{ModelVersion}
use model_registry_service.Store.World.{
  Oracle, World, M, KserveDeployment, pure, lift, raise, deref, or_raise, raise_if, ◌>>=◌, ◌>>◌,
  attempt, ignore, wrapping, new_uuid, time_now,
}
use model_registry_service.Store.Variants.{variant_create, variant_update}
use model_registry_service.Store.Serving.{env_get_by_id, isvc_get_by_id, version_get_by_id}
use model_registry_service.Traffic.Route.{
  namespace_of, get_config, variant_service, kserve_deploy, undeploy_variant, sync_ai_gateway_route,
}

pub record StartCanaryRequest : Type 0 where
  pub project_id : Uuid
  pub config_id : Uuid
  pub model_version_id : Uuid
  pub initial_weight : ℤ

-- The loop that looks for a canary that is active.
unfoldable pub has_active_canary : List TrafficVariant → Bool
has_active_canary [] = false
has_active_canary (v ∷ vs) =
    (str_eq v.variant_name "canary" && is_active v.status) || has_active_canary vs

-- The initial weight: 10 unless it is positive, and 50 at most.
unfoldable pub initial_weight : ℤ → ℤ
initial_weight w =
    let weight = if ltb_ℤ (pos 0) w then w else pos 10 in
    if ltb_ℤ (pos 50) weight then pos 50 else weight

-- The loop that leaves the last variant of a name in a variable, nil if there is none.
unfoldable pub last_named :
    String → Option TrafficVariant → List TrafficVariant → Option TrafficVariant
last_named name found [] = found
last_named name found (v ∷ vs) =
    last_named name (if str_eq v.variant_name name then some v else found) vs

-- The first variant of that name in the loop that breaks.
unfoldable pub first_named : String → List TrafficVariant → Option TrafficVariant
first_named name [] = none
first_named name (v ∷ vs) = if str_eq v.variant_name name then some v else first_named name vs

module _ (E : Oracle) where
  -- The deployment of a variant's service, if there is a client.
  run_deployment :
      String
      → Uuid
      → InferenceService
      → Option ServingEnvironment
      → String
      → ModelVersion
      → M (Unit {0})
  run_deployment text project_id isvc found name version = do
    service ← variant_service E project_id isvc name
    env ← deref found
    deployed ← wrapping text (kserve_deploy E (namespace_of env) service version)
    pure tt

  unfoldable pub deploy_variant :
      String
      → Uuid
      → InferenceService
      → Option ServingEnvironment
      → String
      → ModelVersion
      → M (Unit {0})
  unfolding run_deployment
  deploy_variant text project_id isvc found name version =
      if E.kserve_available then run_deployment text project_id isvc found name version else pure tt

  -- Updates the weight of the stable variant, if there is one; the error is dropped.
  rebalance_stable : ℤ → Option TrafficVariant → M (Unit {0})
  rebalance_stable weight none = pure tt
  rebalance_stable weight (some v) = do
    now ← time_now E
    ignore (variant_update E (set_weight now (pos 100 -ℤ weight) v).0)

  -- StartCanary
  unfoldable pub start_canary : StartCanaryRequest → M TrafficConfig
  unfolding rebalance_stable
  start_canary req = do
    config ← get_config E req.project_id req.config_id
    raise_if (has_active_canary config.variants) canary_already_exists
    version ← version_get_by_id E req.project_id req.model_version_id
    isvc ← isvc_get_by_id E req.project_id config.inference_service_id
    let weight = initial_weight req.initial_weight
    let name = isvc.name <> "-canary"
    found ← attempt (env_get_by_id E req.project_id isvc.serving_environment_id)
    deploy_variant "deploy canary" req.project_id isvc found name version
    id ← new_uuid E
    created ← time_now E
    canary ← lift (new_traffic_variant id created config.id req.model_version_id "canary" weight)
    activated ← time_now E
    variant_create E (activate activated (record canary { kserve_isvc_name = name }))
    rebalance_stable weight (first_named "stable" config.variants)
    ignore (sync_ai_gateway_route E config)
    get_config E req.project_id req.config_id

  -- UpdateCanaryWeight
  unfoldable pub update_canary_weight : Uuid → Uuid → ℤ → M TrafficConfig
  update_canary_weight project_id config_id weight = do
    raise_if (out_of_range weight) invalid_traffic_weight
    config ← get_config E project_id config_id
    canary ← or_raise traffic_variant_not_found (last_named "canary" none config.variants)
    now ← time_now E
    stable ← deref (last_named "stable" none config.variants)
    variant_update E (set_weight now weight canary).0
    variant_update E (set_weight now (pos 100 -ℤ weight) stable).0
    ignore (sync_ai_gateway_route E config)
    get_config E project_id config_id

  -- PromoteCanary
  unfoldable pub promote_canary : Uuid → Uuid → M TrafficConfig
  promote_canary project_id config_id = do
    config ← get_config E project_id config_id
    canary ← or_raise cannot_promote_inactive (last_named "canary" none config.variants)
    raise_if (not (is_active canary.status)) cannot_promote_inactive
    now ← time_now E
    stable ← deref (last_named "stable" none config.variants)
    variant_update E (record (set_weight now (pos 100) canary).0 { variant_name = "stable" })
    variant_update E (deactivate now (record stable { variant_name = "old-stable" }))
    ignore (sync_ai_gateway_route E config)
    get_config E project_id config_id

  roll_back_canary : Uuid → TrafficConfig → Option TrafficVariant → M (Unit {0})
  roll_back_canary project_id config none = pure tt
  roll_back_canary project_id config (some canary) = do
    now ← time_now E
    ignore (variant_update E (deactivate now canary))
    undeploy_variant E project_id config canary

  restore_stable : Option TrafficVariant → M (Unit {0})
  restore_stable none = pure tt
  restore_stable (some stable) = do
    now ← time_now E
    ignore (variant_update E (set_weight now (pos 100) stable).0)

  -- Rollback
  unfoldable pub rollback : Uuid → Uuid → M TrafficConfig
  unfolding roll_back_canary restore_stable
  rollback project_id config_id = do
    config ← get_config E project_id config_id
    roll_back_canary project_id config (last_named "canary" none config.variants)
    restore_stable (last_named "stable" none config.variants)
    ignore (sync_ai_gateway_route E config)
    get_config E project_id config_id
