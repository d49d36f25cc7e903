-- ===== src/Http/Traffic.antt =====
-- internal/adapters/primary/http/handlers/traffic.go and dto/traffic.go, without the list of
-- configurations and the columns that only display reads.
pub mod Calls
use model_registry_service.Base.{
  ℕ, String, Bool, true, false, not, ◌&&◌, Option, none, some, List, [], ◌∷◌, map, if◌then◌else◌,
  str_eq, ℤ,
}
use model_registry_service.Domain.Result.{Result, ok, err, panic, text, traffic_variant_not_found}
use model_registry_service.Domain.Traffic.{
  Uuid, Time, TrafficVariant, TrafficConfig, VariantStatus, find_variant,
}
use model_registry_service.Store.World.{Oracle, World}
use model_registry_service.Traffic.Route.{get_config}
use model_registry_service.Traffic.Configs.{
  CreateTrafficConfigRequest, create_config, delete_config,
}
use model_registry_service.Traffic.Canary.{
  StartCanaryRequest, start_canary, update_canary_weight, promote_canary, rollback,
}
use model_registry_service.Traffic.Variants.{
  AddVariantRequest, BulkUpdateWeightsRequest, add_variant, update_variant, delete_variant,
  bulk_update_weights, promote_variant,
}
use model_registry_service.Http.Gin.{
  Gin, Sent, Body, Response, percentage, required_int, required_uuid, required_text, bad_request,
  respond, parsed, in_project, bound,
}

-- The bodies, as they are decoded.
pub record CreateConfigBody : Type 0 where
  pub inference_service_id : Uuid
  pub strategy : String
  pub stable_version_id : Uuid

pub record StartCanaryBody : Type 0 where
  pub model_version_id : Uuid
  pub initial_weight : ℤ

pub record AddVariantBody : Type 0 where
  pub variant_name : String
  pub model_version_id : Uuid
  pub weight : ℤ

-- A Go map, in the orders of the two loops over it; nil where the body has none.
abbrev pub WeightsBody : Type 0
WeightsBody = Option (List (String × ℤ) × List (String × ℤ))

pub record TrafficVariantResponse : Type 0 where
  pub id : Uuid
  pub variant_name : String
  pub model_version_id : Uuid
  pub weight : ℕ
  pub status : VariantStatus
  pub kserve_isvc_name : String

pub record TrafficConfigResponse : Type 0 where
  pub id : Uuid
  pub created_at : Time
  pub updated_at : Time
  pub inference_service_id : Uuid
  pub strategy : String
  pub status : String
  pub ai_gateway_route_name : String
  pub variants : List TrafficVariantResponse

pub data Shown : Type 0 where
  config : TrafficConfigResponse → Shown
  variant : TrafficVariantResponse → Shown
  variants : Uuid → List TrafficVariantResponse → Shown

abbrev pub variant_response : TrafficVariant → TrafficVariantResponse
variant_response v = record {
  id = v.id;
  variant_name = v.variant_name;
  model_version_id = v.model_version_id;
  weight = v.weight;
  status = v.status;
  kserve_isvc_name = v.kserve_isvc_name;
}

-- ToTrafficConfigResponse
unfoldable pub to_traffic_config_response : TrafficConfig → TrafficConfigResponse
to_traffic_config_response c = record {
  id = c.id;
  created_at = c.created_at;
  updated_at = c.updated_at;
  inference_service_id = c.inference_service_id;
  strategy = c.strategy;
  status = c.status;
  ai_gateway_route_name = c.ai_gateway_route_name;
  variants = map variant_response c.variants;
}

abbrev pub config_with : ℕ → TrafficConfig → Response Shown
config_with status c = record {
  status = status;
  body = Body.value (Shown.config (to_traffic_config_response c));
}

abbrev pub no_content : {A : Type 0} → A → Response Shown
no_content a = record { status = 204; body = Body.empty }

abbrev pub variants_of : Uuid → TrafficConfig → Response Shown
variants_of id c = record {
  status = 200;
  body = Body.value (Shown.variants id (map variant_response c.variants));
}

abbrev pub one_variant : Option TrafficVariant → Response Shown
one_variant none = record { status = 404; body = Body.failure (text traffic_variant_not_found) }
one_variant (some v) = record {
  status = 200;
  body = Body.value (Shown.variant (variant_response v));
}

abbrev pub strategy_or : String → String
strategy_or s = if str_eq s "" then "canary" else s

-- The bindings.
abbrev pub valid_config : CreateConfigBody → Bool
valid_config b = required_uuid b.inference_service_id && required_uuid b.stable_version_id

abbrev pub valid_canary : StartCanaryBody → Bool
valid_canary b = required_uuid b.model_version_id

abbrev pub valid_canary_weight : ℤ → Bool
valid_canary_weight w = required_int w && percentage w

abbrev pub valid_variant : AddVariantBody → Bool
valid_variant b = required_text b.variant_name && required_uuid b.model_version_id

abbrev pub valid_weights : WeightsBody → Bool
valid_weights none = false
valid_weights (some ws) = true

module _ (g : Gin) (E : Oracle) where
  abbrev Handler : Type 0
  Handler = World → Response Shown × World

  -- The identifier in the path.
  abbrev on_config : String → String → (Uuid → Uuid → Handler) → Handler
  on_config header id k =
      in_project g header λ p. parsed (bad_request "invalid config id") (g.parse_uuid id) (k p)

  -- GetTrafficConfig
  unfoldable pub get_traffic_config : String → String → Handler
  get_traffic_config header id = in_project g header λ p.
      parsed (bad_request "invalid id") (g.parse_uuid id)
        λ i. respond (config_with 200) (get_config E p i)

  -- CreateTrafficConfig
  unfoldable pub create_traffic_config : String → Sent CreateConfigBody → Handler
  create_traffic_config header body = in_project g header λ p. bound g valid_config body λ b.
      respond (config_with 201) (
        create_config E (record {
          project_id = p;
          inference_service_id = b.inference_service_id;
          strategy = strategy_or b.strategy;
          stable_version_id = b.stable_version_id;
        }))

  -- DeleteTrafficConfig
  unfoldable pub delete_traffic_config : String → String → Handler
  delete_traffic_config header id = in_project g header λ p.
      parsed (bad_request "invalid id") (g.parse_uuid id)
        λ i. respond no_content (delete_config E p i)

  -- StartCanary
  unfoldable pub http_start_canary : String → String → Sent StartCanaryBody → Handler
  http_start_canary header id body = on_config header id λ p i. bound g valid_canary body λ b.
      respond (config_with 200) (
        start_canary E (record {
          project_id = p;
          config_id = i;
          model_version_id = b.model_version_id;
          initial_weight = b.initial_weight;
        }))

  -- UpdateCanaryWeight
  unfoldable pub http_update_canary_weight : String → String → Sent ℤ → Handler
  http_update_canary_weight header id body = on_config header id λ p i.
      bound g valid_canary_weight body
        λ weight. respond (config_with 200) (update_canary_weight E p i weight)

  -- PromoteCanary
  unfoldable pub http_promote_canary : String → String → Handler
  http_promote_canary header id =
      on_config header id λ p i. respond (config_with 200) (promote_canary E p i)

  -- Rollback
  unfoldable pub http_rollback : String → String → Handler
  http_rollback header id = on_config header id λ p i. respond (config_with 200) (rollback E p i)

  -- ListVariants
  unfoldable pub http_list_variants : String → String → Handler
  http_list_variants header id =
      on_config header id λ p i. respond (variants_of i) (get_config E p i)

  -- GetVariant
  unfoldable pub http_get_variant : String → String → String → Handler
  http_get_variant header id name =
      on_config header id
        λ p i. respond (λ c. one_variant (find_variant name c.variants)) (get_config E p i)

  -- AddVariant
  unfoldable pub http_add_variant : String → String → Sent AddVariantBody → Handler
  http_add_variant header id body = on_config header id λ p i. bound g valid_variant body λ b.
      respond (config_with 201) (
        add_variant E (record {
          project_id = p;
          config_id = i;
          variant_name = b.variant_name;
          model_version_id = b.model_version_id;
          weight = b.weight;
        }))

  -- UpdateVariant
  unfoldable pub http_update_variant : String → String → String → Sent ℤ → Handler
  http_update_variant header id name body = on_config header id λ p i.
      bound g percentage body λ weight. respond (config_with 200) (update_variant E p i name weight)

  -- DeleteVariant
  unfoldable pub http_delete_variant : String → String → String → Handler
  http_delete_variant header id name =
      on_config header id λ p i. respond no_content (delete_variant E p i name)

  -- The call of BulkUpdateWeights; the binding has seen that the map is not nil.
  abbrev pub bulk : Uuid → Uuid → WeightsBody → Handler
  bulk p i none =
      respond (config_with 200) (
        bulk_update_weights E
          (record { project_id = p; config_id = i; weights = []; updates = [] }))
  bulk p i (some ws) = respond (config_with 200) (
      bulk_update_weights E
        (record { project_id = p; config_id = i; weights = ws.0; updates = ws.1 }))

  -- BulkUpdateWeights
  unfoldable pub http_bulk_update_weights : String → String → Sent WeightsBody → Handler
  http_bulk_update_weights header id body =
      on_config header id λ p i. bound g valid_weights body (bulk p i)

  -- PromoteVariant
  unfoldable pub http_promote_variant : String → String → String → Handler
  http_promote_variant header id name =
      on_config header id λ p i. respond (config_with 200) (promote_variant E p i name)
