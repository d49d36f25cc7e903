-- ===== src/Traffic/Variants.antt =====
-- AddVariant, UpdateVariant, DeleteVariant, BulkUpdateWeights and PromoteVariant of traffic.go.
pub mod Keeps
pub mod Sessions
pub mod Creation
pub mod Stable
pub mod Promotion
pub mod Idle
pub mod OldNames
pub mod Retiring
pub mod Success
pub mod Sound
pub mod Guards
use model_registry_service.Base.{
  ℕ, String, Bool, true, false, not, ◌&&◌, ◌||◌, Option, none, some, List, [], ◌∷◌, ◌==◌,
  if◌then◌else◌, str_eq, ◌<>◌, decimal, ℤ, pos, ltb_ℤ, ◌+ℤ◌, ◌-ℤ◌,
}
use model_registry_service.Domain.Result.{
  Error, Result, ok, err, variant_already_exists, weight_sum_exceeds_100, traffic_variant_not_found,
  cannot_delete_stable, invalid_traffic_weight, cannot_promote_stable, cannot_promote_inactive,
  no_stable_variant,
}
use model_registry_service.Domain.Traffic.{
  Uuid, Time, TrafficVariant, TrafficConfig, VariantStatus, is_active, out_of_range,
  new_traffic_variant, set_weight, activate, deactivate, get_variant, has_variant, total_weight,
}
use model_registry_service.Store.World.{
  Oracle, World, M, pure, lift, raise, or_raise, raise_if, ◌>>=◌, ◌>>◌, attempt, ignore, new_uuid,
  time_now,
}
use model_registry_service.Store.Variants.{variant_create, variant_update, variant_delete}
use model_registry_service.Store.Serving.{env_get_by_id, isvc_get_by_id, version_get_by_id}
use model_registry_service.Traffic.Route.{get_config, undeploy_variant, sync_ai_gateway_route}
use model_registry_service.Traffic.Canary.{deploy_variant}

pub record AddVariantRequest : Type 0 where
  pub project_id : Uuid
  pub config_id : Uuid
  pub variant_name : String
  pub model_version_id : Uuid
  pub weight : ℤ

-- The weights are a Go map, whose order differs from one `range` to the next: `weights` is the
-- order of the loop that validates, `updates` that of the loop that writes.
pub record BulkUpdateWeightsRequest : Type 0 where
  pub project_id : Uuid
  pub config_id : Uuid
  pub weights : List (String × ℤ)
  pub updates : List (String × ℤ)

-- The validation loop of BulkUpdateWeights: the total, or the error of the first bad weight.
unfoldable pub sum_weights : ℤ → List (String × ℤ) → Result ℤ
sum_weights total [] = ok total
sum_weights total ((name, w) ∷ ws) =
    let rest = sum_weights (total +ℤ w) ws in
    if out_of_range w then err invalid_traffic_weight else rest

-- SetWeight with its error.
unfoldable pub weight_set : Time → ℤ → TrafficVariant → Result TrafficVariant
weight_set now weight v =
    let (v', failure) = set_weight now weight v in elim failure [ none ↦ ok v' | some e ↦ err e ]

-- if weight > 0 { variant.Activate() } else { variant.Status = domain.VariantStatusInactive }
unfoldable pub settle : Time → ℤ → TrafficVariant → TrafficVariant
settle now weight v =
    if ltb_ℤ (pos 0) weight then activate now v else record v { status = VariantStatus.inactive }

-- The total if the variant had the new weight.
unfoldable pub new_total : TrafficConfig → TrafficVariant → ℤ → ℤ
new_total config v weight = pos (total_weight config) -ℤ pos v.weight +ℤ weight

module _ (E : Oracle) where
  -- AddVariant
  unfoldable pub add_variant : AddVariantRequest → M TrafficConfig
  add_variant req = do
    config ← get_config E req.project_id req.config_id
    raise_if (has_variant config req.variant_name) variant_already_exists
    version ← version_get_by_id E req.project_id req.model_version_id
    raise_if (ltb_ℤ (pos 100) (pos (total_weight config) +ℤ req.weight)) weight_sum_exceeds_100
    isvc ← isvc_get_by_id E req.project_id config.inference_service_id
    let name = isvc.name <> "-" <> req.variant_name
    found ← attempt (env_get_by_id E req.project_id isvc.serving_environment_id)
    deploy_variant E ("deploy variant " <> req.variant_name) req.project_id isvc found name version
    id ← new_uuid E
    created ← time_now E
    variant ←
        lift (
          new_traffic_variant id created config.id req.model_version_id req.variant_name req.weight)
    now ← time_now E
    let named = record variant { kserve_isvc_name = name }
    variant_create E (if ltb_ℤ (pos 0) req.weight then activate now named else named)
    ignore (sync_ai_gateway_route E config)
    get_config E req.project_id req.config_id

  -- UpdateVariant
  unfoldable pub update_variant : Uuid → Uuid → String → ℤ → M TrafficConfig
  update_variant project_id config_id name weight = do
    config ← get_config E project_id config_id
    v ← or_raise traffic_variant_not_found (get_variant config name)
    raise_if (ltb_ℤ (pos 100) (new_total config v weight)) weight_sum_exceeds_100
    now ← time_now E
    weighted ← lift (weight_set now weight v)
    variant_update E (settle now weight weighted)
    ignore (sync_ai_gateway_route E config)
    get_config E project_id config_id

  -- DeleteVariant
  unfoldable pub delete_variant : Uuid → Uuid → String → M TrafficConfig
  delete_variant project_id config_id name = do
    config ← get_config E project_id config_id
    raise_if (str_eq name "stable") cannot_delete_stable
    v ← or_raise traffic_variant_not_found (get_variant config name)
    undeploy_variant E project_id config v
    variant_delete E v.id
    ignore (sync_ai_gateway_route E config)
    get_config E project_id config_id

  -- The loop of BulkUpdateWeights that writes.
  write_weights : TrafficConfig → List (String × ℤ) → M (Unit {0})
  write_weights config [] = pure tt
  write_weights config ((name, weight) ∷ ws) = do
    v ←
        or_raise (Error.wrapped ("variant " <> name) traffic_variant_not_found)
          (get_variant config name)
    now ← time_now E
    weighted ← lift (weight_set now weight v)
    variant_update E (settle now weight weighted)
    write_weights config ws

  -- BulkUpdateWeights
  unfoldable pub bulk_update_weights : BulkUpdateWeightsRequest → M TrafficConfig
  unfolding write_weights
  bulk_update_weights req = do
    config ← get_config E req.project_id req.config_id
    total ← lift (sum_weights (pos 0) req.weights)
    raise_if (ltb_ℤ (pos 100) total) weight_sum_exceeds_100
    write_weights config req.updates
    ignore (sync_ai_gateway_route E config)
    get_config E req.project_id req.config_id

  unfoldable pub retire : TrafficVariant → M (Unit {0})
  retire v = do now ← time_now E; ignore (variant_update E (deactivate now v))

  -- The loop of PromoteVariant over the variants that are neither promoted nor stable.
  unfoldable pub retire_others :
      TrafficVariant → TrafficVariant → List TrafficVariant → M (Unit {0})
  unfolding retire
  retire_others variant stable [] = pure tt
  retire_others variant stable (v ∷ vs) = do
    if not (v.id == variant.id) && not (v.id == stable.id) then retire v else pure tt
    retire_others variant stable vs

  -- PromoteVariant
  unfoldable pub promote_variant : Uuid → Uuid → String → M TrafficConfig
  promote_variant project_id config_id name = do
    config ← get_config E project_id config_id
    raise_if (str_eq name "stable") cannot_promote_stable
    variant ← or_raise cannot_promote_inactive (get_variant config name)
    raise_if (not (is_active variant.status)) cannot_promote_inactive
    stable ← or_raise no_stable_variant (get_variant config "stable")
    unix ← time_now E
    now ← time_now E
    let old_stable = deactivate now (record stable { variant_name = "old-stable-" <> decimal unix })
    let promoted = (set_weight now (pos 100) (record variant { variant_name = "stable" })).0
    retire_others variant stable config.variants
    variant_update E old_stable
    variant_update E promoted
    ignore (sync_ai_gateway_route E config)
    get_config E project_id config_id
