-- ===== src/Examples/Virtual.antt =====
-- A virtual model with two backends, and the theorems on it.
use mathlib.Core.List.{Perm}
use model_registry_service.Base.{
  ◌≡◌, refl, ap, true, not, none, some, List, [], ◌∷◌, pos, keep, ◌==◌,
}
use model_registry_service.Domain.Result.{Result, ok}
use model_registry_service.Domain.Virtual.{VirtualModel, VirtualModelBackend, is_active}
use model_registry_service.Cluster.Json.{GoMap, object, get, put, wire, slice, items}
use model_registry_service.Cluster.Server.{walk, ai_gateway_route}
use model_registry_service.Cluster.Gateway.{AiGatewayRoute, Settings, manifest}
use model_registry_service.Cluster.Gateway.Routes.{build_route, parse_route, get_route}
use model_registry_service.Cluster.Gateway.Routes.RoundTrip.{recorded_route}
use model_registry_service.Cluster.Gateway.Routes.Weights.{reweighed, resent}
use model_registry_service.Virtual.Tables.{
  World, model_row, model_named, has_backend, backends_of, by_priority, insert_backend,
}
use model_registry_service.Virtual.Service.Names.{AreDistinct}
use model_registry_service.Virtual.Tables.Order.{InOrder}
use model_registry_service.Virtual.Service.{sync_route, delete_backend, weighted}
use model_registry_service.Virtual.Service.Sessions.{Request, serve, serve_virtual-AreDistinct}
use model_registry_service.Virtual.Service.Removal.{delete_backend-unscoped}
use model_registry_service.Virtual.Service.Mirror.{entry_of, mirrored, sync_route_mirrors}
use model_registry_service.Examples.{obliging}
use model_registry_service.Examples.Server.{
  accessors, accessors-IsUnstructured, Objects, kept, server, server-IsServer, find_object,
  with_version,
}

abbrev pub settings : Settings
settings = record {
  enabled = true;
  default_ns = "model-serving";
  gateway_name = "ai-gateway";
  gateway_namespace = "envoy-gateway-system";
}

abbrev chat : VirtualModel
chat = record {
  id = 1;
  created_at = 0;
  updated_at = 0;
  project_id = 1;
  name = "chat";
  description = "";
  ai_gateway_route_name = "vm-chat";
  status = "active";
  backends = [];
}

-- A virtual model of another project.
abbrev search : VirtualModel
search = record chat { id = 2; project_id = 2; name = "search"; ai_gateway_route_name = "" }

abbrev fallback : VirtualModelBackend
fallback = record {
  id = 10;
  created_at = 0;
  updated_at = 0;
  virtual_model_id = 1;
  ai_service_backend_name = "gpt";
  ai_service_backend_namespace = "model-serving";
  model_name_override = none;
  weight = pos 100;
  priority = pos 1;
  status = "active";
}

abbrev primary : VirtualModelBackend
primary = record fallback {
  id = 11;
  ai_service_backend_name = "claude";
  model_name_override = some "claude-4";
  priority = pos 0;
}

abbrev draining : VirtualModelBackend
draining = record fallback { id = 12; ai_service_backend_name = "llama"; status = "draining" }

abbrev foreign : VirtualModelBackend
foreign = record fallback { id = 13; virtual_model_id = 2 }

abbrev rows : List VirtualModelBackend
rows = fallback ∷ primary ∷ draining ∷ foreign ∷ []

-- The route as Create leaves it.
abbrev empty_route : AiGatewayRoute
empty_route = record {
  name = "vm-chat";
  namespace = "model-serving";
  model_name = "chat";
  backends = [];
  rate_limit = none;
  labels = none;
  llm_request_costs = [];
}

abbrev stored : GoMap
stored = kept "model-serving" (build_route settings empty_route)

abbrev one_route : Objects
one_route = (ai_gateway_route, stored) ∷ []

abbrev pub start : World server
start = record { models = chat ∷ search ∷ []; backends = rows; cluster = one_route; ticks = 0 }

abbrev rewritten : GoMap
rewritten = kept "model-serving" (resent accessors settings stored stored (mirrored chat rows))

abbrev after_sync : Objects
after_sync = (ai_gateway_route, rewritten) ∷ one_route

stored_read : find_object ai_gateway_route "model-serving" "vm-chat" one_route ≡ ok stored
unfolding find_object build_route manifest object get put walk
stored_read = refl

rewritten_read : find_object ai_gateway_route "model-serving" "vm-chat" after_sync ≡ ok rewritten
unfolding find_object build_route manifest object get put walk with_version parse_route wire slice
    items backends_of by_priority insert_backend weighted
rewritten_read = refl

-- The primary backend comes first, and the draining one and the other project's are left out.
mirrored-chat : mirrored chat rows ≡ entry_of primary ∷ entry_of fallback ∷ []
unfolding backends_of by_priority insert_backend
mirrored-chat = refl

chat_row : model_row 1 1 start.models ≡ some chat
unfolding model_row
chat_row = refl

sync_route_mirrors_example :
    (sync_route obliging accessors server settings chat start
      ≡ (ok tt, record start { cluster = after_sync; ticks = 2 }))
    × (get_route accessors server settings "model-serving" "vm-chat" after_sync ≡ (
      ok (recorded_route "model-serving" (reweighed accessors stored (mirrored chat rows))),
      after_sync,
    ))
    × Perm (backends_of 1 rows) (keep (λ b. b.virtual_model_id == 1) rows)
    × InOrder (keep is_active (backends_of 1 rows))
sync_route_mirrors_example =
    sync_route_mirrors obliging accessors-IsUnstructured server-IsServer settings (λ k. refl) refl
      chat chat start refl chat_row stored stored
      (ap (λ (r : Result GoMap). (r, one_route)) stored_read)
      (ap (λ (r : Result GoMap). (r, one_route)) stored_read) refl
      (ap (λ (r : Result GoMap). (r, after_sync)) rewritten_read)

chat_named : model_named 1 "chat" start.models ≡ some chat
unfolding model_named
chat_named = refl

foreign_known : has_backend 13 rows ≡ true
unfolding has_backend
foreign_known = refl

-- A request on project 1 removes the backend of project 2.
delete_backend-unscoped_example :
    ((delete_backend obliging accessors server settings 1 "chat" 13 start).1.models ≡ start.models)
    × ((delete_backend obliging accessors server settings 1 "chat" 13 start).1.backends
        ≡ keep (λ b. not (b.id == 13)) rows)
delete_backend-unscoped_example =
    delete_backend-unscoped obliging accessors server settings (λ k. refl) 1 "chat" 13 start chat
      chat_named foreign_known

abbrev requests : List Request
requests =
    Request.change 1 "chat" 10 (pos 200) (pos 0)
    ∷ Request.add (record {
      project_id = 1;
      virtual_model_name = "chat";
      ai_service_backend_name = "mistral";
      ai_service_backend_ns = "";
      model_name_override = none;
      weight = pos 5;
      priority = pos 2;
    })
    ∷ Request.remove 1 "chat" 11
    ∷ Request.create (record { project_id = 2; name = "chat"; description = "" })
    ∷ Request.delete 1 "chat"
    ∷ []

start-AreDistinct : AreDistinct start.backends
start-AreDistinct = (refl, (refl, (refl, (refl, tt))))

serve_virtual-AreDistinct_example :
    AreDistinct (serve obliging accessors server settings requests start).backends
serve_virtual-AreDistinct_example =
    serve_virtual-AreDistinct obliging accessors server settings requests start start-AreDistinct
