-- ===== src/Traffic/Route/Silent.antt =====
-- Reading a configuration and talking to the cluster write no table.
use model_registry_service.Base.{String, Option, none, some, List}
use model_registry_service.Domain.Traffic.{Uuid, TrafficVariant, TrafficConfig}
use model_registry_service.Domain.Serving.{InferenceService}
use model_registry_service.Domain.Registry.{ModelVersion}
use model_registry_service.Store.World.{Oracle, AiGatewayRoute, Call}
use model_registry_service.Store.Silent.{Silent}
use model_registry_service.Store.Reads.{read_rules}
use model_registry_service.Traffic.Route.{
  gateway_call, gateway_create_route, gateway_delete_route, gateway_update_weights, kserve_deploy,
  kserve_undeploy, get_config, variant_service, undeploy_in, undeploy_named, undeploy_variant,
  sync_in, push_route, sync_ai_gateway_route,
}

module _ (E : Oracle) where
  Silent-gateway_call : (c : Call) → Silent (gateway_call E c)
  unfolding gateway_call
  Silent-gateway_call c = search read_rules

  pub Silent-gateway_create_route : (r : AiGatewayRoute) → Silent (gateway_create_route E r)
  unfolding gateway_create_route
  Silent-gateway_create_route r = Silent-gateway_call (Call.create_route r)

  pub Silent-gateway_delete_route : (n r : String) → Silent (gateway_delete_route E n r)
  unfolding gateway_delete_route
  Silent-gateway_delete_route n r = Silent-gateway_call (Call.delete_route n r)

  pub Silent-kserve_deploy :
      (n : String) (s : InferenceService) (v : ModelVersion) → Silent (kserve_deploy E n s v)
  unfolding kserve_deploy
  Silent-kserve_deploy n s v = search read_rules

  pub Silent-kserve_undeploy : (n m : String) → Silent (kserve_undeploy E n m)
  unfolding kserve_undeploy
  Silent-kserve_undeploy n m = search read_rules

  pub Silent-get_config : (p id : Uuid) → Silent (get_config E p id)
  unfolding get_config
  Silent-get_config p id = search read_rules

  pub Silent-variant_service :
      (p : Uuid) (s : InferenceService) (n : String) → Silent (variant_service E p s n)
  unfolding variant_service
  Silent-variant_service p s n = search read_rules

  Silent-undeploy_in :
      (p : Uuid) (n : String) (o : Option InferenceService) → Silent (undeploy_in E p n o)
  unfolding undeploy_in
  Silent-undeploy_in p n none = search read_rules
  Silent-undeploy_in p n (some s) = search (read_rules, Silent-kserve_undeploy)

  Silent-undeploy_named :
      (p : Uuid) (c : TrafficConfig) (n : String) → Silent (undeploy_named E p c n)
  unfolding undeploy_named
  Silent-undeploy_named p c n = search (read_rules, Silent-undeploy_in)

  pub Silent-undeploy_variant :
      (p : Uuid) (c : TrafficConfig) (v : TrafficVariant) → Silent (undeploy_variant E p c v)
  unfolding undeploy_variant
  Silent-undeploy_variant p c v = search (read_rules, Silent-undeploy_named)

  Silent-sync_in :
      (c : TrafficConfig) (vs : List TrafficVariant) (o : Option InferenceService)
      → Silent (sync_in E c vs o)
  unfolding sync_in gateway_update_weights
  Silent-sync_in c vs none = search read_rules
  Silent-sync_in c vs (some s) = search (read_rules, Silent-gateway_call)

  Silent-push_route : (c : TrafficConfig) → Silent (push_route E c)
  unfolding push_route
  Silent-push_route c = search (read_rules, Silent-sync_in)

  pub Silent-sync_ai_gateway_route : (c : TrafficConfig) → Silent (sync_ai_gateway_route E c)
  unfolding sync_ai_gateway_route
  Silent-sync_ai_gateway_route c = search (read_rules, Silent-push_route)
