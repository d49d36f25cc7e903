-- ===== src/Cluster/Gateway.antt =====
-- internal/core/ports/output/ai_gateway_client.go: the values that the client of the AI gateway
-- takes and returns, and what the functions of aigateway/client.go share.
pub mod Routes
pub mod ServiceBackends
pub mod Backends
pub mod RateLimits
use model_registry_service.Base.{
  ℕ, String, ◌≡◌, refl, ◌∙◌, Bool, true, false, not, Option, none, some, List, [], ◌∷◌, ℤ,
  if◌then◌else◌, str_eq,
}
use model_registry_service.Cluster.Json.{Value, GoMap, object, get, wire, wire_map}
use model_registry_service.Cluster.Server.{
  Labels, text_map, walk, Unstructured, IsUnstructured, Delivers,
}

-- LLMRequestCost
pub record LlmRequestCost : Type 0 where
  pub metadata_key : String
  pub kind : String
  pub cel : String

pub record WeightedBackend : Type 0 where
  pub name : String
  pub namespace : String
  pub weight : ℤ
  pub priority : ℤ
  pub variant_tag : String
  pub model_name_override : Option String

pub record RateLimitConfig : Type 0 where
  pub tenant_header : String
  pub token_budget : ℤ
  pub requests_per_min : ℤ
  pub budget_period : String

-- AIGatewayRoute
pub record AiGatewayRoute : Type 0 where
  pub name : String
  pub namespace : String
  pub model_name : String
  pub backends : List WeightedBackend
  pub rate_limit : Option RateLimitConfig
  pub labels : Labels
  pub llm_request_costs : List LlmRequestCost

-- AIGatewayRouteStatus; LastUpdated is never set.
pub record AiGatewayRouteStatus : Type 0 where
  pub ready : Bool
  pub conditions : List String

-- The fields of aiGatewayClient that its methods read, without the dynamic client.
pub record Settings : Type 0 where
  pub enabled : Bool
  pub default_ns : String
  pub gateway_name : String
  pub gateway_namespace : String

-- if namespace == "" { namespace = c.defaultNS }
abbrev pub namespace_or : String → String → String
namespace_or default_ns ns = if str_eq ns "" then default_ns else ns

abbrev pub is_set : String → Bool
is_set s = not (str_eq s "")

abbrev pub is_empty : {A : Type 0} → List A → Bool
is_empty [] = true
is_empty (x ∷ xs) = false

-- labels[key] = value
unfoldable pub put_label : String → String → List (String × String) → List (String × String)
put_label key value [] = (key, value) ∷ []
put_label key value ((k, v) ∷ m) =
    if str_eq k key then (key, value) ∷ m else (k, v) ∷ put_label key value m

-- labels := x.Labels; if labels == nil { make }; labels["managed-by"] = "model-registry". The map is
-- not copied, but no caller reads its map again.
unfoldable pub managed : Labels → List (String × String)
unfolding put_label
managed none = put_label "managed-by" "model-registry" []
managed (some m) = put_label "managed-by" "model-registry" m

-- The conversion to map[string]interface{}, entry by entry.
unfoldable pub label_map : List (String × String) → GoMap
label_map [] = GoMap.no_keys
label_map ((k, v) ∷ m) = GoMap.pair k (Value.text v) (label_map m)

-- The object that the builders return around their specs.
unfoldable pub manifest : String → String → String → Labels → GoMap → GoMap
unfolding managed label_map
manifest api_version kind name labels spec = object (
    ("apiVersion", Value.text api_version)
    ∷ ("kind", Value.text kind)
    ∷ (
      "metadata",
      Value.obj (
          object
            (("name", Value.text name) ∷ ("labels", Value.obj (label_map (managed labels))) ∷ [])),
    )
    ∷ ("spec", Value.obj spec)
    ∷ [])

pub text_map-label_map : (m : List (String × String)) → text_map (label_map m) ≡ some m
unfolding text_map label_map
text_map-label_map [] = refl
text_map-label_map ((k, v) ∷ m) = rw (text_map-label_map m) refl

module _ {u : Unstructured} (laws : IsUnstructured u) (api_version kind name : String)
    (labels : Labels) (spec : GoMap) where
  abbrev sent : GoMap
  sent = manifest api_version kind name labels spec

  pub get_name-manifest : u.get_name sent ≡ name
  unfolding manifest object walk get
  get_name-manifest = laws.name_at sent

  pub get_labels-manifest : u.get_labels sent ≡ some (managed labels)
  unfolding manifest object walk get text_map
  get_labels-manifest = laws.labels_at sent ∙ text_map-label_map (managed labels)

  pub spec-manifest :
      (got : GoMap) → Delivers u sent got → get "spec" got ≡ some (Value.obj (wire_map spec))
  unfolding manifest object get wire
  spec-manifest got delivered = delivered.spec
