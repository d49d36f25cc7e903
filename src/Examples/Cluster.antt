-- ===== src/Examples/Cluster.antt =====
-- The theorems on the clients of the cluster, at the small server.
use model_registry_service.Base.{
  String, ◌≡◌, refl, ap, true, none, some, List, [], ◌∷◌, pos, arith, contains,
}
use model_registry_service.Domain.Result.{Error, Result, ok, err, message, backend_not_found, text}
use model_registry_service.Cluster.Json.{Value, GoMap, object, get, put, wire, slice, items}
use model_registry_service.Cluster.Server.{at, walk, ai_gateway_route, backend, ai_service_backend}
use model_registry_service.Cluster.Gateway.{WeightedBackend, AiGatewayRoute, Settings, manifest}
use model_registry_service.Cluster.Gateway.Routes.{
  build_route, parse_route, update_traffic_weights, get_route,
}
use model_registry_service.Cluster.Gateway.Routes.RoundTrip.{recorded_route}
use model_registry_service.Cluster.Gateway.Routes.Weights.{
  reweighed, resent, update_traffic_weights_rewrites,
}
use model_registry_service.Cluster.Gateway.Backends.{
  Backend, build_backend, create_backend, get_backend,
}
use model_registry_service.Cluster.Gateway.Backends.RoundTrip.{
  recorded_backend, get_backend-create_backend,
}
use model_registry_service.Cluster.Gateway.ServiceBackends.{
  AiServiceBackend, build_service_backend, update_service_backend, get_service_backend,
}
use model_registry_service.Cluster.Gateway.ServiceBackends.Entries.{recorded_service_backend}
use model_registry_service.Cluster.Gateway.ServiceBackends.RoundTrip.{
  get_service_backend-update_service_backend,
}
use model_registry_service.Cluster.Services.{
  service_backend_get, service_backend_update, service_backend_delete,
}
use model_registry_service.Cluster.Services.Errors.{service_backend-missing}
use model_registry_service.Cluster.Kserve.{build_inference_service, service_object}
use model_registry_service.Cluster.Kserve.Labelling.{build_inference_service-labels}
use model_registry_service.Examples.{service, version}
use model_registry_service.Examples.Server.{
  accessors, accessors-IsUnstructured, Objects, kept, server, server-IsServer, find_object,
  with_version,
}

abbrev settings : Settings
settings = record {
  enabled = true;
  default_ns = "model-serving";
  gateway_name = "ai-gateway";
  gateway_namespace = "envoy-gateway-system";
}

abbrev primary : WeightedBackend
primary = record {
  name = "claude";
  namespace = "";
  weight = pos 80;
  priority = pos 0;
  variant_tag = "stable";
  model_name_override = some "claude-4";
}

abbrev fallback : WeightedBackend
fallback = record primary {
  name = "gpt";
  weight = pos 20;
  priority = pos 1;
  model_name_override = none;
}

-- A route with a cost, as another tool may have written it.
abbrev metered : AiGatewayRoute
metered = record {
  name = "vm-chat";
  namespace = "";
  model_name = "chat";
  backends = primary ∷ [];
  rate_limit = none;
  labels = none;
  llm_request_costs =
      record { metadata_key = "llm_total_tokens"; kind = "TotalToken"; cel = "" } ∷ [];
}

abbrev stored : GoMap
stored = kept "model-serving" (build_route settings metered)

abbrev one_route : Objects
one_route = (ai_gateway_route, stored) ∷ []

abbrev split : List WeightedBackend
split = fallback ∷ primary ∷ []

abbrev rewritten : GoMap
rewritten = kept "model-serving" (resent accessors settings stored stored split)

abbrev after_update : Objects
after_update = (ai_gateway_route, rewritten) ∷ one_route

stored_read : find_object ai_gateway_route "model-serving" "vm-chat" one_route ≡ ok stored
unfolding find_object build_route manifest object get put walk
stored_read = refl

rewritten_read : find_object ai_gateway_route "model-serving" "vm-chat" after_update ≡ ok rewritten
unfolding find_object build_route manifest object get put walk with_version parse_route wire slice
    items
rewritten_read = refl

update_traffic_weights_rewrites_example :
    (update_traffic_weights accessors server settings "" "vm-chat" split one_route
      ≡ (ok tt, after_update))
    × (get_route accessors server settings "" "vm-chat" after_update
        ≡ (ok (recorded_route "model-serving" (reweighed accessors stored split)), after_update))
    × (at ("spec" ∷ "llmRequestCosts" ∷ []) rewritten ≡ none)
update_traffic_weights_rewrites_example =
    update_traffic_weights_rewrites accessors-IsUnstructured server-IsServer settings "" "vm-chat"
      split stored stored (ap (λ (r : Result GoMap). (r, one_route)) stored_read)
      (ap (λ (r : Result GoMap). (r, one_route)) stored_read) refl
      (ap (λ (r : Result GoMap). (r, after_update)) rewritten_read)

abbrev endpoint : Backend
endpoint = record {
  name = "claude";
  namespace = "";
  endpoints =
      record { fqdn = some (record { hostname = "api.anthropic.com"; port = pos 443 }); ip = none }
      ∷ record { fqdn = none; ip = none }
      ∷ [];
  labels = none;
}

abbrev created_backend : GoMap
created_backend = kept "model-serving" (build_backend endpoint)

abbrev one_backend : Objects
one_backend = (backend, created_backend) ∷ []

created_read : find_object backend "model-serving" "claude" one_backend ≡ ok created_backend
unfolding find_object build_backend manifest object get put walk
created_read = refl

get_backend-create_backend_example :
    (create_backend accessors server settings endpoint [] ≡ (ok tt, one_backend))
    × (get_backend accessors server settings "" "claude" one_backend
        ≡ (ok (recorded_backend "model-serving" endpoint), one_backend))
get_backend-create_backend_example =
    get_backend-create_backend accessors-IsUnstructured endpoint server-IsServer settings
      (omega arith) refl (ap (λ (r : Result GoMap). (r, one_backend)) created_read)

abbrev keyed : AiServiceBackend
keyed = record {
  name = "claude";
  namespace = "models";
  schema = "Anthropic";
  backend_ref = record {
    name = "claude";
    namespace = "";
    group = "gateway.envoyproxy.io";
    kind = "Backend";
  };
  header_mutation = some (record {
    set = record { name = "x-api-key"; value = "secret" } ∷ [];
    remove = "authorization" ∷ [];
  });
  labels = some (("team", "ml") ∷ []);
}

abbrev old_keyed : GoMap
old_keyed = kept "models" (build_service_backend (record keyed { header_mutation = none }))

abbrev one_service_backend : Objects
one_service_backend = (ai_service_backend, old_keyed) ∷ []

abbrev new_keyed : GoMap
new_keyed = kept "models" (
    accessors.set_resource_version (accessors.get_resource_version old_keyed)
      (build_service_backend keyed))

abbrev two_service_backends : Objects
two_service_backends = (ai_service_backend, new_keyed) ∷ one_service_backend

old_keyed_read : find_object ai_service_backend "models" "claude" one_service_backend ≡ ok old_keyed
unfolding find_object build_service_backend manifest object get put walk
old_keyed_read = refl

new_keyed_read :
    find_object ai_service_backend "models" "claude" two_service_backends ≡ ok new_keyed
unfolding find_object build_service_backend manifest object get put walk with_version
new_keyed_read = refl

get_service_backend-update_service_backend_example :
    (update_service_backend accessors server settings keyed one_service_backend
      ≡ (ok tt, two_service_backends))
    × (get_service_backend accessors server settings "models" "claude" two_service_backends
        ≡ (ok (recorded_service_backend "models" keyed), two_service_backends))
get_service_backend-update_service_backend_example =
    get_service_backend-update_service_backend accessors-IsUnstructured keyed server-IsServer
      settings (ap (λ (r : Result GoMap). (r, one_service_backend)) old_keyed_read) refl
      (ap (λ (r : Result GoMap). (r, two_service_backends)) new_keyed_read)

abbrev absent : Error
absent = message "object claude not found"

absent_read : find_object ai_service_backend "models" "claude" [] ≡ err absent
unfolding find_object
absent_read = refl

absent_says : contains (text absent) "not found" ≡ true
unfolding contains text
absent_says = refl

service_backend-missing_example :
    (service_backend_get accessors server settings "models" "claude" []
      ≡ (err backend_not_found, []))
    × (service_backend_update accessors server settings keyed [] ≡ (err backend_not_found, []))
    × (service_backend_delete accessors server settings "models" "claude" []
        ≡ (err backend_not_found, []))
service_backend-missing_example =
    service_backend-missing accessors server settings keyed refl
      (ap (λ (r : Result GoMap). (r, [])) absent_read) refl absent_says

abbrev own_labels : List (String × String)
own_labels = ("team", "ml") ∷ ("modelregistry.ai-platform/model-version-id", "mine") ∷ []

abbrev labelled : GoMap
labelled = service_object (λ id. "id") own_labels service version

build_inference_service-labels_example :
    (build_inference_service (λ id. "id") own_labels service (some version) ≡ ok labelled)
    × (at ("metadata" ∷ "labels" ∷ "modelregistry.ai-platform/model-version-id" ∷ []) labelled
        ≡ some (Value.text "mine"))
build_inference_service-labels_example =
    build_inference_service-labels (λ id. "id") own_labels service version
      "modelregistry.ai-platform/model-version-id"
