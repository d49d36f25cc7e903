-- ===== src/Store/Configs.antt =====
-- internal/adapters/secondary/postgres/traffic_config_repo.go over the table traffic_config of
-- migrations/000003_add_traffic_tables.up.sql: its primary key, the unique inference service, and
-- the route name that does not take NULL. Deleting a configuration deletes its variants.
use model_registry_service.Base.{
  Bool, true, false, not, ◌&&◌, ◌||◌, Option, none, some, List, [], ◌∷◌, ◌++◌, ◌==◌, if◌then◌else◌,
  keep,
}
use model_registry_service.Domain.Result.{
  traffic_config_not_found, unique_violation, not_null_violation,
}
use model_registry_service.Domain.Traffic.{Uuid, Time, TrafficConfig}
use model_registry_service.Store.World.{
  Oracle, M, gets, modify, or_raise, raise_if, ◌>>=◌, ◌>>◌, wrapping, time_now, reach_database,
}
use model_registry_service.Store.Variants.{is_null}

-- WHERE tc.id = $1 AND tc.project_id = $2
unfoldable pub config_row : Uuid → Uuid → List TrafficConfig → Option TrafficConfig
config_row project_id id [] = none
config_row project_id id (c ∷ cs) =
    if c.id == id && c.project_id == project_id then some c else config_row project_id id cs

-- WHERE tc.inference_service_id = $1 AND tc.project_id = $2
config_row_by_isvc : Uuid → Uuid → List TrafficConfig → Option TrafficConfig
config_row_by_isvc project_id isvc_id [] = none
config_row_by_isvc project_id isvc_id (c ∷ cs) =
    if c.inference_service_id == isvc_id && c.project_id == project_id
    then some c
    else config_row_by_isvc project_id isvc_id cs

config_clashes : TrafficConfig → List TrafficConfig → Bool
config_clashes c [] = false
config_clashes c (r ∷ cs) =
    (r.id == c.id || r.inference_service_id == c.inference_service_id) || config_clashes c cs

unfoldable pub has_config : Uuid → Uuid → List TrafficConfig → Bool
unfolding config_row
has_config project_id id cs = elim (config_row project_id id cs) [ none ↦ false | some _ ↦ true ]

-- The variants are no column of the table.
abbrev pub without_variants : TrafficConfig → TrafficConfig
without_variants c = record c { variants = [] }

config_overwrite : Time → TrafficConfig → TrafficConfig → TrafficConfig
config_overwrite now c r = record r {
  strategy = c.strategy;
  ai_gateway_route_name = c.ai_gateway_route_name;
  status = c.status;
  updated_at = now;
}

update_configs : Time → Uuid → TrafficConfig → List TrafficConfig → List TrafficConfig
unfolding config_overwrite
update_configs now project_id c [] = []
update_configs now project_id c (r ∷ cs) =
    (if r.id == c.id && r.project_id == project_id then config_overwrite now c r else r)
    ∷ update_configs now project_id c cs

module _ (E : Oracle) where
  -- Create
  unfoldable pub config_create : TrafficConfig → M (Unit {0})
  unfolding config_clashes
  config_create c = wrapping "insert traffic_config" do
    reach_database E
    raise_if (is_null c.ai_gateway_route_name) not_null_violation
    rows ← gets (λ w. w.configs)
    raise_if (config_clashes c rows) unique_violation
    modify (λ w. record w { configs = rows ++ without_variants c ∷ [] })

  -- GetByID
  unfoldable pub config_get_by_id : Uuid → Uuid → M TrafficConfig
  config_get_by_id project_id id = do
    wrapping "get traffic_config by id" (reach_database E)
    rows ← gets (λ w. w.configs)
    or_raise traffic_config_not_found (config_row project_id id rows)

  -- GetByISVC
  unfoldable pub config_get_by_isvc : Uuid → Uuid → M TrafficConfig
  unfolding config_row_by_isvc
  config_get_by_isvc project_id isvc_id = do
    wrapping "get traffic_config by isvc" (reach_database E)
    rows ← gets (λ w. w.configs)
    or_raise traffic_config_not_found (config_row_by_isvc project_id isvc_id rows)

  -- Update
  unfoldable pub config_update : Uuid → TrafficConfig → M (Unit {0})
  unfolding update_configs
  config_update project_id c = do
    wrapping "update traffic_config" (reach_database E)
    rows ← gets (λ w. w.configs)
    raise_if (not (has_config project_id c.id rows)) traffic_config_not_found
    wrapping "update traffic_config" (raise_if (is_null c.ai_gateway_route_name) not_null_violation)
    now ← time_now E
    modify (λ w. record w { configs = update_configs now project_id c rows })

  -- Delete, with ON DELETE CASCADE of fk_traffic_variant_config
  unfoldable pub config_delete : Uuid → Uuid → M (Unit {0})
  config_delete project_id id = do
    wrapping "delete traffic_config" (reach_database E)
    rows ← gets (λ w. w.configs)
    raise_if (not (has_config project_id id rows)) traffic_config_not_found
    modify λ w. record w {
      configs = keep (λ c. not (c.id == id && c.project_id == project_id)) w.configs;
      variants = keep (λ v. not (v.traffic_config_id == id)) w.variants;
    }
