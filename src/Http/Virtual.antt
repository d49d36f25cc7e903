-- ===== src/Http/Virtual.antt =====
-- internal/adapters/primary/http/handlers/virtual_model.go and dto/virtual_model.go, without the list
-- of virtual models.
pub mod Calls
use model_registry_service.Base.{
  ℕ, String, Bool, true, not, ◌&&◌, Option, none, some, List, map, ℤ, pos, ltb_ℤ,
}
use model_registry_service.Domain.Traffic.{Uuid, Time}
use model_registry_service.Domain.Virtual.{VirtualModel, VirtualModelBackend}
use model_registry_service.Store.World.{Oracle}
use model_registry_service.Cluster.Server.{Unstructured, Dynamic}
use model_registry_service.Cluster.Gateway.{Settings}
use model_registry_service.Virtual.Tables.{World, vm_get_by_name}
use model_registry_service.Virtual.Service.{
  CreateVirtualModelRequest, AddBackendRequest, create_virtual_model, delete_virtual_model,
  add_backend, update_backend, delete_backend,
}
use model_registry_service.Http.Gin.{
  Gin, Sent, Body, Response, percentage, required_text, bad_request, respond, parsed, in_project,
  bound,
}

-- The bodies, as they are decoded.
pub record CreateBody : Type 0 where
  pub name : String
  pub description : String

pub record AddBody : Type 0 where
  pub ai_service_backend_name : String
  pub ai_service_backend_ns : String
  pub model_name_override : Option String
  pub weight : ℤ
  pub priority : ℤ

pub record UpdateBody : Type 0 where
  pub weight : ℤ
  pub priority : ℤ

pub record VirtualModelBackendRes : Type 0 where
  pub id : Uuid
  pub ai_service_backend_name : String
  pub ai_service_backend_namespace : String
  pub model_name_override : Option String
  pub weight : ℤ
  pub priority : ℤ
  pub status : String

pub record VirtualModelResponse : Type 0 where
  pub id : Uuid
  pub created_at : Time
  pub updated_at : Time
  pub name : String
  pub description : String
  pub ai_gateway_route_name : String
  pub status : String
  pub backends : List VirtualModelBackendRes

pub data Shown : Type 0 where
  virtual_model : VirtualModelResponse → Shown
  backends : String → List VirtualModelBackendRes → Shown

abbrev pub backend_response : VirtualModelBackend → VirtualModelBackendRes
backend_response b = record {
  id = b.id;
  ai_service_backend_name = b.ai_service_backend_name;
  ai_service_backend_namespace = b.ai_service_backend_namespace;
  model_name_override = b.model_name_override;
  weight = b.weight;
  priority = b.priority;
  status = b.status;
}

-- ToVirtualModelResponse
unfoldable pub to_virtual_model_response : VirtualModel → VirtualModelResponse
to_virtual_model_response vm = record {
  id = vm.id;
  created_at = vm.created_at;
  updated_at = vm.updated_at;
  name = vm.name;
  description = vm.description;
  ai_gateway_route_name = vm.ai_gateway_route_name;
  status = vm.status;
  backends = map backend_response vm.backends;
}

abbrev pub model_with : ℕ → VirtualModel → Response Shown
model_with status vm = record {
  status = status;
  body = Body.value (Shown.virtual_model (to_virtual_model_response vm));
}

abbrev pub backends_with : String → VirtualModel → Response Shown
backends_with name vm = record {
  status = 200;
  body = Body.value (Shown.backends name (map backend_response vm.backends));
}

abbrev pub no_content : {A : Type 0} → A → Response Shown
no_content a = record { status = 204; body = Body.empty }

-- The bindings.
abbrev pub valid_create : CreateBody → Bool
valid_create b = required_text b.name

abbrev pub valid_add : AddBody → Bool
valid_add b = required_text b.ai_service_backend_name

abbrev pub valid_update : UpdateBody → Bool
valid_update b = percentage b.weight && not (ltb_ℤ b.priority (pos 0))

module _ (g : Gin) (E : Oracle) (u : Unstructured) (d : Dynamic) (c : Settings) where
  abbrev Handler : Type 0
  Handler = World d → Response Shown × World d

  -- GetVirtualModel
  unfoldable pub http_get_virtual_model : String → String → Handler
  http_get_virtual_model header name =
      in_project g header λ p. respond (model_with 200) (vm_get_by_name E d p name)

  -- CreateVirtualModel
  unfoldable pub http_create_virtual_model : String → Sent CreateBody → Handler
  http_create_virtual_model header body = in_project g header λ p. bound g valid_create body λ b.
      respond (model_with 201) (
        create_virtual_model E u d c
          (record { project_id = p; name = b.name; description = b.description }))

  -- DeleteVirtualModel
  unfoldable pub http_delete_virtual_model : String → String → Handler
  http_delete_virtual_model header name =
      in_project g header λ p. respond no_content (delete_virtual_model E u d c p name)

  -- ListVirtualModelBackends
  unfoldable pub http_list_backends : String → String → Handler
  http_list_backends header name =
      in_project g header λ p. respond (backends_with name) (vm_get_by_name E d p name)

  -- AddVirtualModelBackend
  unfoldable pub http_add_backend : String → String → Sent AddBody → Handler
  http_add_backend header name body = in_project g header λ p. bound g valid_add body λ b.
      respond (model_with 201) (
        add_backend E u d c (record {
          project_id = p;
          virtual_model_name = name;
          ai_service_backend_name = b.ai_service_backend_name;
          ai_service_backend_ns = b.ai_service_backend_ns;
          model_name_override = b.model_name_override;
          weight = b.weight;
          priority = b.priority;
        }))

  -- UpdateVirtualModelBackend
  unfoldable pub http_update_backend : String → String → String → Sent UpdateBody → Handler
  http_update_backend header name id body = in_project g header λ p.
      parsed (bad_request "invalid backend_id") (g.parse_uuid id) λ i.
        bound g valid_update body
          λ b. respond (model_with 200) (update_backend E u d c p name i b.weight b.priority)

  -- DeleteVirtualModelBackend
  unfoldable pub http_delete_backend : String → String → String → Handler
  http_delete_backend header name id = in_project g header λ p.
      parsed (bad_request "invalid backend_id") (g.parse_uuid id)
        λ i. respond no_content (delete_backend E u d c p name i)
