-- ===== src/Examples/Canary.antt =====
-- The canary of a configuration at work, and the theorems about it on these tables.
use model_registry_service.Base.{◌≡◌, ◌≢◌, refl, subst, none, some, pos, int64, ◌-ℤ◌, inl, inr}
use model_registry_service.Domain.Result.{ok}
use model_registry_service.Domain.Traffic.{TrafficConfig, TrafficVariant, VariantStatus, set_weight}
use model_registry_service.Store.World.{
  ◌>>=◌, wrapping, reach_database, time_now, ignore, attempt, log_call, tick,
}
use model_registry_service.Store.Configs.{config_get_by_id, config_row}
use model_registry_service.Store.Serving.{env_get_by_id, isvc_get_by_id, isvc_row}
use model_registry_service.Store.Variants.{
  variant_list_by_config, rows_of, variant_update, row_by_id, clashes, update_rows, is_null,
  nullable_string, order_by_created, overwrite,
}
use model_registry_service.Store.Variants.Rows.{HasUniqueIds}
use model_registry_service.Traffic.Route.{
  get_config, backend_of, backends_of, gateway_update_weights, namespace_of, sync_ai_gateway_route,
}
use model_registry_service.Traffic.Canary.{update_canary_weight, promote_canary, last_named}
use model_registry_service.Traffic.Canary.Weights.{IsSplit, update_canary_weight_splits}
use model_registry_service.Traffic.Canary.Promotion.{promote_canary_never_succeeds}
use model_registry_service.Store.Variants.Writes.{Fits}
use model_registry_service.Store.Serving.{environment_row}
use model_registry_service.Traffic.Route.Calm.{IsPlaced}
use model_registry_service.Traffic.Canary.Success.{AllFit, update_canary_weight_succeeds}
use model_registry_service.Examples.{
  variant, service, environment, obliging, config, with_canary, value_of,
}

abbrev split : TrafficConfig
split = value_of config (update_canary_weight obliging 1 5 (pos 20) with_canary).0

unique : HasUniqueIds with_canary.variants
unfolding row_by_id
unique = (refl, (refl, tt))

split_returned : (update_canary_weight obliging 1 5 (pos 20) with_canary).0 ≡ ok split
unfolding update_canary_weight ◌>>=◌ get_config config_get_by_id wrapping reach_database config_row
    variant_list_by_config last_named rows_of time_now variant_update row_by_id set_weight clashes
    update_rows ◌-ℤ◌ ignore int64 env_get_by_id isvc_get_by_id isvc_row is_null nullable_string
    order_by_created overwrite attempt log_call tick backend_of backends_of gateway_update_weights
    namespace_of sync_ai_gateway_route
split_returned = refl

update_canary_weight_splits_example :
    IsSplit 5 20 with_canary.variants
      (update_canary_weight obliging 1 5 (pos 20) with_canary).1.variants
update_canary_weight_splits_example =
    update_canary_weight_splits obliging 1 5 (pos 20) with_canary split unique split_returned

promote_canary_never_succeeds_example :
    ((c : TrafficConfig) → (promote_canary obliging 1 5 with_canary).0 ≢ ok c)
    × ((promote_canary obliging 1 5 with_canary).1.variants ≡ with_canary.variants)
promote_canary_never_succeeds_example =
    promote_canary_never_succeeds obliging 1 5 with_canary unique

placed : IsPlaced 1 5 with_canary
unfolding config_row isvc_row environment_row
placed = record {
  config = config;
  service = service;
  environment = environment;
  config_found = refl;
  config_id = refl;
  service_found = refl;
  environment_found = refl;
}

all_fit : AllFit obliging with_canary.variants
unfolding clashes is_null nullable_string
all_fit v (inl e) =
    subst (λ (x : TrafficVariant). Fits obliging x.traffic_config_id x with_canary.variants) e
      (record { texts = refl; weight = refl; name = refl })
all_fit v (inr (inl e)) =
    subst (λ (x : TrafficVariant). Fits obliging x.traffic_config_id x with_canary.variants) e
      (record { texts = refl; weight = refl; name = refl })
all_fit v (inr (inr h)) = absurd h

abbrev the_canary : TrafficVariant
the_canary = variant 11 "canary" 10 VariantStatus.active

abbrev the_stable : TrafficVariant
the_stable = variant 10 "stable" 90 VariantStatus.active

canary_named : last_named "canary" none (rows_of 5 with_canary.variants) ≡ some the_canary
unfolding last_named rows_of order_by_created
canary_named = refl

stable_named : last_named "stable" none (rows_of 5 with_canary.variants) ≡ some the_stable
unfolding last_named rows_of order_by_created
stable_named = refl

update_canary_weight_succeeds_example :
    (c : TrafficConfig) × ((update_canary_weight obliging 1 5 (pos 20) with_canary).0 ≡ ok c)
    × IsSplit 5 20 with_canary.variants
        (update_canary_weight obliging 1 5 (pos 20) with_canary).1.variants
update_canary_weight_succeeds_example =
    update_canary_weight_succeeds obliging with_canary 1 5 (pos 20) the_canary the_stable
      (λ k. refl) refl placed unique all_fit canary_named stable_named
