-- ===== src/Traffic/Configs/Creation.antt =====
-- CreateConfig against the columns that migrations/000003 declares NOT NULL.
use model_registry_service.Base.{◌≡◌, ◌≢◌, refl, true, arith}
use model_registry_service.Domain.Result.{ok}
use model_registry_service.Domain.Traffic.{
  Uuid, Time, TrafficStrategy, TrafficConfig, new_traffic_config,
}
use model_registry_service.Store.World.{Oracle, World, M}
use model_registry_service.Store.Silent.{
  SameTables, SameTables-refl, SameTables-trans, Silent, At, Silent-new_uuid, Silent-time_now,
  Silent-reach_database,
}
use model_registry_service.Store.Reads.{Silent-isvc_get_by_id, Silent-version_get_by_id}
use model_registry_service.Store.Hoare.{
  Hoare, Hoare-bind, Hoare-silent, Hoare-raise_if, Hoare-lift, Hoare-wrapping, never_ok,
}
use model_registry_service.Store.Variants.{is_null}
use model_registry_service.Store.Configs.{config_create}
use model_registry_service.Traffic.Configs.{CreateTrafficConfigRequest, create_config}

new_traffic_config-route :
    (id : Uuid) (now : Time) (p isvc : Uuid) (s : TrafficStrategy) (c : TrafficConfig)
    → new_traffic_config id now p isvc s ≡ ok c
    → c.ai_gateway_route_name ≡ ""
unfolding new_traffic_config
new_traffic_config-route id now p isvc s c h = ground arith

is_null-empty : is_null "" ≡ true
unfolding is_null
is_null-empty = refl

module _ (E : Oracle) (t : World) where
  reading : {A : Type 0} {m : M A} → Silent m → Hoare (At t) m (λ _. At t) (At t)
  reading h = Hoare-silent (record { at = λ s p. SameTables-trans s p }) (λ w p. p) h

  config_create_fails :
      (c : TrafficConfig)
      → c.ai_gateway_route_name ≡ ""
      → Hoare (At t) (config_create E c) (λ _ _. ⊥) (At t)
  unfolding config_create
  config_create_fails c empty = Hoare-wrapping _ (
      Hoare-bind (reading (Silent-reach_database E)) λ _.
        Hoare-raise_if (λ w p. p) (is_null c.ai_gateway_route_name) _
          λ passes. cc (passes, empty, is_null-empty))

  create_config_fails :
      (req : CreateTrafficConfigRequest) → Hoare (At t) (create_config E req) (λ _ _. ⊥) (At t)
  unfolding create_config
  create_config_fails req =
      Hoare-bind (reading (Silent-isvc_get_by_id E req.project_id req.inference_service_id)) λ isvc.
        Hoare-bind (reading (Silent-version_get_by_id E req.project_id req.stable_version_id))
          λ version. Hoare-bind (reading (Silent-new_uuid E)) λ id.
            Hoare-bind (reading (Silent-time_now E)) λ now.
              Hoare-lift (λ w p. p)
                (new_traffic_config id now req.project_id req.inference_service_id req.strategy)
                λ c made.
                  Hoare-bind
                    (config_create_fails c (
                      new_traffic_config-route id now req.project_id req.inference_service_id
                        req.strategy c made))
                    λ _. record { at = λ w p. absurd p }

-- Against the column that migrations/000003 declares NOT NULL CreateConfig never succeeds: whatever
-- the request, the tables and the answers of the database and the cluster, it
-- returns no configuration and leaves every table as it was.
pub create_config_never_succeeds :
    (E : Oracle) (req : CreateTrafficConfigRequest) (w : World)
    → ((config : TrafficConfig) → (create_config E req w).0 ≢ ok config)
      × SameTables (create_config E req w).1 w
create_config_never_succeeds E req w = never_ok (create_config_fails E w req) w (SameTables-refl w)
