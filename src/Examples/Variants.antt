-- ===== src/Examples/Variants.antt =====
-- Requests on the variants of a configuration, and the theorems about them on these tables.
use model_registry_service.Base.{
  ℕ, ◌≤◌, ◌<◌, ◌≡◌, ◌≢◌, refl, subst, false, some, List, [], ◌∷◌, pos, negsuc, arith, inl, inr,
  ◌<>◌, decimal, All,
}
use model_registry_service.Domain.Result.{ok}
use model_registry_service.Domain.Traffic.{
  Uuid, TrafficConfig, TrafficVariant, VariantStatus, set_weight, deactivate, get_variant,
  find_variant, get_active_variants, total_weight, sum_active,
}
use model_registry_service.Domain.Traffic.Weights.{total_weight-get_active_variants}
use model_registry_service.Store.World.{
  World, ◌>>=◌, wrapping, reach_database, time_now, ignore, attempt, log_call, tick,
}
use model_registry_service.Store.Silent.{SameTables}
use model_registry_service.Store.Configs.{config_get_by_id, config_row}
use model_registry_service.Store.Serving.{env_get_by_id, isvc_get_by_id, isvc_row}
use model_registry_service.Store.Variants.{
  variant_list_by_config, rows_of, variant_update, row_by_id, clashes, update_rows, is_null,
  nullable_string, order_by_created, overwrite,
}
use model_registry_service.Store.Variants.Rows.{Has, HasUniqueIds}
use model_registry_service.Store.Variants.Budget.{config_weight}
use model_registry_service.Traffic.Route.{
  get_config, backend_of, backends_of, gateway_update_weights, namespace_of, sync_ai_gateway_route,
}
use model_registry_service.Traffic.Route.Sync.{Pushes, sync_ai_gateway_route_sends}
use model_registry_service.Traffic.Configs.{CreateTrafficConfigRequest, create_config}
use model_registry_service.Traffic.Configs.Creation.{create_config_never_succeeds}
use model_registry_service.Traffic.Variants.Creation.{add_variant_never_succeeds}
use model_registry_service.Traffic.Variants.{
  AddVariantRequest, add_variant, promote_variant, delete_variant, retire_others, retire,
}
use model_registry_service.Traffic.Variants.Sound.{IsSound}
use model_registry_service.Traffic.Variants.Sessions.{Request, serve, serve-IsSound}
use model_registry_service.Traffic.Variants.Stable.{delete_variant_keeps_stable}
use model_registry_service.Traffic.Variants.Promotion.{IsPromoted, promote_variant_promotes}
use model_registry_service.Store.Variants.Writes.{Fits}
use model_registry_service.Store.Serving.{environment_row}
use model_registry_service.Traffic.Route.Calm.{IsPlaced}
use model_registry_service.Traffic.Canary.Success.{AllFit}
use model_registry_service.Traffic.Variants.Success.{AreRetired, promote_variant_succeeds}
use model_registry_service.Traffic.Variants.OldNames.{not_old_name}
use model_registry_service.Examples.{
  service, environment, obliging, config, variant, world, value_of,
}

abbrev stable : TrafficVariant
stable = variant 10 "stable" 60 VariantStatus.active

abbrev rows : List TrafficVariant
rows = stable ∷ variant 12 "blue" 30 VariantStatus.active ∷ []

abbrev pub with_blue : World
with_blue = world rows

with_blue-HasUniqueIds : HasUniqueIds rows
unfolding row_by_id
with_blue-HasUniqueIds = (refl, (refl, tt))

with_blue-within : (id : Uuid) → config_weight id rows ≤ 100
unfolding config_weight
with_blue-within id = ground arith

pub with_blue-IsSound : IsSound rows
with_blue-IsSound = record {
  unique = with_blue-HasUniqueIds;
  idle = (λ e. cc, (λ e. cc, tt));
  within = with_blue-within;
}

abbrev green : AddVariantRequest
green = record {
  project_id = 1;
  config_id = 5;
  variant_name = "green";
  model_version_id = 30;
  weight = pos 10;
}

-- A third variant, more than what is left, a weight that wraps around, and a deletion.
abbrev requests : List Request
requests =
    Request.add green
    ∷ Request.update 1 5 "blue" (pos 31)
    ∷ Request.update 1 5 "blue" (negsuc 9223372036854775807)
    ∷ Request.delete 1 5 "green"
    ∷ []

serve-IsSound_example : IsSound (serve obliging requests with_blue).variants
serve-IsSound_example = serve-IsSound obliging requests with_blue with_blue-IsSound

abbrev promoted : TrafficConfig
promoted = value_of config (promote_variant obliging 1 5 "blue" with_blue).0

promoted_returned : (promote_variant obliging 1 5 "blue" with_blue).0 ≡ ok promoted
unfolding promote_variant retire_others retire ◌>>=◌ get_config config_get_by_id wrapping
    reach_database config_row variant_list_by_config rows_of get_variant find_variant deactivate
    time_now variant_update row_by_id set_weight clashes update_rows ignore env_get_by_id
    isvc_get_by_id isvc_row is_null nullable_string order_by_created overwrite attempt log_call tick
    backend_of backends_of gateway_update_weights namespace_of sync_ai_gateway_route decimal
promoted_returned = refl

promote_variant_promotes_example :
    IsPromoted 5 "blue" rows (promote_variant obliging 1 5 "blue" with_blue).1.variants
promote_variant_promotes_example =
    promote_variant_promotes obliging 1 5 "blue" with_blue promoted with_blue-HasUniqueIds
      promoted_returned

delete_variant_keeps_stable_example :
    Has stable (delete_variant obliging 1 5 "blue" with_blue).1.variants
delete_variant_keeps_stable_example =
    delete_variant_keeps_stable obliging 1 5 "blue" with_blue stable with_blue-HasUniqueIds
      (inl refl) refl

abbrev creation : CreateTrafficConfigRequest
creation = record {
  project_id = 1;
  inference_service_id = 7;
  strategy = "canary";
  stable_version_id = 30;
}

create_config_never_succeeds_example :
    ((c : TrafficConfig) → (create_config obliging creation with_blue).0 ≢ ok c)
    × SameTables (create_config obliging creation with_blue).1 with_blue
create_config_never_succeeds_example = create_config_never_succeeds obliging creation with_blue

add_variant_never_succeeds_example :
    ((c : TrafficConfig) → (add_variant obliging green with_blue).0 ≢ ok c)
    × SameTables (add_variant obliging green with_blue).1 with_blue
add_variant_never_succeeds_example = add_variant_never_succeeds obliging green with_blue

sync_ai_gateway_route_sends_example :
    Pushes obliging config with_blue (sync_ai_gateway_route obliging config with_blue).1
sync_ai_gateway_route_sends_example = sync_ai_gateway_route_sends obliging config with_blue

abbrev loaded : TrafficConfig
loaded = record config { variants = rows }

total_weight-get_active_variants_example :
    (sum_active (get_active_variants loaded) ≡ total_weight loaded)
    × All (λ v. (v.status ≡ VariantStatus.active) × (0 < v.weight)) (get_active_variants loaded)
total_weight-get_active_variants_example = total_weight-get_active_variants loaded

with_blue-IsPlaced : IsPlaced 1 5 with_blue
unfolding config_row isvc_row environment_row
with_blue-IsPlaced = record {
  config = config;
  service = service;
  environment = environment;
  config_found = refl;
  config_id = refl;
  service_found = refl;
  environment_found = refl;
}

with_blue-AllFit : AllFit obliging rows
unfolding clashes is_null nullable_string
with_blue-AllFit v (inl e) =
    subst (λ (x : TrafficVariant). Fits obliging x.traffic_config_id x rows) e
      (record { texts = refl; weight = refl; name = refl })
with_blue-AllFit v (inr (inl e)) =
    subst (λ (x : TrafficVariant). Fits obliging x.traffic_config_id x rows) e
      (record { texts = refl; weight = refl; name = refl })
with_blue-AllFit v (inr (inr h)) = absurd h

abbrev blue : TrafficVariant
blue = variant 12 "blue" 30 VariantStatus.active

blue_found : find_variant "blue" (rows_of 5 rows) ≡ some blue
unfolding find_variant rows_of order_by_created
blue_found = refl

stable_found : find_variant "stable" (rows_of 5 rows) ≡ some stable
unfolding find_variant rows_of order_by_created
stable_found = refl

old_name_free : (n : ℕ) → clashes 10 5 ("old-stable-" <> decimal n) rows ≡ false
unfolding clashes
old_name_free n = rw (not_old_name "b" "lue" (decimal n) (λ e. omega (arith, e))) refl

promote_variant_succeeds_example :
    (c : TrafficConfig) × ((promote_variant obliging 1 5 "blue" with_blue).0 ≡ ok c)
    × IsPromoted 5 "blue" rows (promote_variant obliging 1 5 "blue" with_blue).1.variants
    × AreRetired blue.id (rows_of 5 rows) (promote_variant obliging 1 5 "blue" with_blue).1.variants
promote_variant_succeeds_example =
    promote_variant_succeeds obliging with_blue 1 5 "blue" blue stable (λ k. refl) refl
      with_blue-IsPlaced with_blue-HasUniqueIds with_blue-AllFit blue_found refl stable_found
      old_name_free
