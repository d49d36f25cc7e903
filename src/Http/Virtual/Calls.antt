-- ===== src/Http/Virtual/Calls.antt =====
-- The requests on virtual models of RegisterRoutes, but their list, and the calls of the service that
-- they stand for.
pub mod Refines
use model_registry_service.Base.{ℕ, String, Option, some, ℤ}
use model_registry_service.Domain.Result.{Result}
use model_registry_service.Domain.Traffic.{Uuid}
use model_registry_service.Store.World.{Oracle}
use model_registry_service.Cluster.Server.{Unstructured, Dynamic, Act}
use model_registry_service.Cluster.Gateway.{Settings}
use model_registry_service.Virtual.Tables.{World, vm_get_by_name}
use model_registry_service.Virtual.Service.{
  CreateVirtualModelRequest, AddBackendRequest, create_virtual_model, delete_virtual_model,
  add_backend, update_backend, delete_backend,
}
use model_registry_service.Http.Gin.{Gin, Sent, Response}
use model_registry_service.Http.Traffic.Calls.{also, project, checked, finished}
use model_registry_service.Http.Virtual.{
  valid_create, valid_add, valid_update, CreateBody, AddBody, UpdateBody, Shown,
  http_get_virtual_model, http_create_virtual_model, http_delete_virtual_model, http_list_backends,
  http_add_backend, http_update_backend, http_delete_backend,
}

-- The header Project-ID, the parameters of the path, and the body.
pub data HttpRequest : Type 0 where
  show_model : String → String → HttpRequest
  make_model : String → Sent CreateBody → HttpRequest
  drop_model : String → String → HttpRequest
  show_backends : String → String → HttpRequest
  add_one : String → String → Sent AddBody → HttpRequest
  change_one : String → String → String → Sent UpdateBody → HttpRequest
  drop_one : String → String → String → HttpRequest

module _ (g : Gin) (E : Oracle) (u : Unstructured) (d : Dynamic) (c : Settings) where
  -- RegisterRoutes
  unfoldable pub serve_models : HttpRequest → World d → Response Shown × World d
  serve_models (HttpRequest.show_model h n) = http_get_virtual_model g E u d c h n
  serve_models (HttpRequest.make_model h b) = http_create_virtual_model g E u d c h b
  serve_models (HttpRequest.drop_model h n) = http_delete_virtual_model g E u d c h n
  serve_models (HttpRequest.show_backends h n) = http_list_backends g E u d c h n
  serve_models (HttpRequest.add_one h n b) = http_add_backend g E u d c h n b
  serve_models (HttpRequest.change_one h n i b) = http_update_backend g E u d c h n i b
  serve_models (HttpRequest.drop_one h n i) = http_delete_backend g E u d c h n i

-- The calls of the service, with what a well-formed request says.
pub data Operation : Type 0 where
  read : Uuid → String → Operation
  create : CreateVirtualModelRequest → Operation
  delete : Uuid → String → Operation
  add : AddBackendRequest → Operation
  change : Uuid → String → Uuid → ℤ → ℤ → Operation
  remove : Uuid → String → Uuid → Operation

-- The status of a call that succeeds.
abbrev pub success_status : Operation → ℕ
success_status (Operation.read p n) = 200
success_status (Operation.create req) = 201
success_status (Operation.delete p n) = 204
success_status (Operation.add req) = 201
success_status (Operation.change p n i weight priority) = 200
success_status (Operation.remove p n i) = 204

-- The operation that a request asks for, if it is well formed.
unfoldable pub operation : Gin → HttpRequest → Option Operation
operation g (HttpRequest.show_model h n) = also (project g h) λ p. some (Operation.read p n)
operation g (HttpRequest.make_model h b) = also (project g h) λ p.
    also (checked valid_create b) λ body. some (
      Operation.create
        (record { project_id = p; name = body.name; description = body.description }))
operation g (HttpRequest.drop_model h n) = also (project g h) λ p. some (Operation.delete p n)
operation g (HttpRequest.show_backends h n) = also (project g h) λ p. some (Operation.read p n)
operation g (HttpRequest.add_one h n b) = also (project g h) λ p. also (checked valid_add b) λ body.
    some (
      Operation.add (record {
        project_id = p;
        virtual_model_name = n;
        ai_service_backend_name = body.ai_service_backend_name;
        ai_service_backend_ns = body.ai_service_backend_ns;
        model_name_override = body.model_name_override;
        weight = body.weight;
        priority = body.priority;
      }))
operation g (HttpRequest.change_one h n i b) = also (project g h) λ p. also (g.parse_uuid i) λ id.
    also (checked valid_update b) λ body. some (Operation.change p n id body.weight body.priority)
operation g (HttpRequest.drop_one h n i) =
    also (project g h) λ p. also (g.parse_uuid i) λ id. some (Operation.remove p n id)

module _ (E : Oracle) (u : Unstructured) (d : Dynamic) (c : Settings) where
  abbrev run : {A : Type 0} → Act (World d) A → World d → Result (Unit {0}) × World d
  run m w = let (r, w') = m w in (finished r, w')

  unfoldable pub perform : Operation → World d → Result (Unit {0}) × World d
  perform (Operation.read p n) = run (vm_get_by_name E d p n)
  perform (Operation.create req) = run (create_virtual_model E u d c req)
  perform (Operation.delete p n) = run (delete_virtual_model E u d c p n)
  perform (Operation.add req) = run (add_backend E u d c req)
  perform (Operation.change p n i weight priority) =
      run (update_backend E u d c p n i weight priority)
  perform (Operation.remove p n i) = run (delete_backend E u d c p n i)
