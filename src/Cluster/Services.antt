-- ===== src/Cluster/Services.antt =====
-- internal/core/services/backend.go and ai_service_backend.go, over the client of the gateway.
pub mod Errors
use model_registry_service.Base.{String, Bool, true, false, ◌||◌, List, if◌then◌else◌, contains}
use model_registry_service.Domain.Result.{
  Error, Result, ok, err, panic, text, envoy_backend_not_found, envoy_backend_already_exists,
  backend_not_found, backend_already_exists, ai_gateway_not_available,
}
use model_registry_service.Cluster.Server.{Unstructured, Dynamic, Act}
use model_registry_service.Cluster.Gateway.{Settings}
use model_registry_service.Cluster.Gateway.ServiceBackends.{
  AiServiceBackend, create_service_backend, get_service_backend, list_service_backends,
  update_service_backend, delete_service_backend,
}
use model_registry_service.Cluster.Gateway.Backends.{
  Backend, create_backend, get_backend, list_backends, update_backend, delete_backend,
}

-- strings.Contains(errStr, "not found") || strings.Contains(errStr, "NotFound")
unfoldable pub says_not_found : Error → Bool
says_not_found e = contains (text e) "not found" || contains (text e) "NotFound"

unfoldable pub says_exists : Error → Bool
says_exists e = contains (text e) "already exists" || contains (text e) "AlreadyExists"

-- mapEnvoyBackendK8sError
unfoldable pub map_envoy_backend_error : Error → Error
map_envoy_backend_error e =
    if says_not_found e
    then envoy_backend_not_found
    else if says_exists e
    then envoy_backend_already_exists
    else e

-- mapK8sError
unfoldable pub map_error : Error → Error
map_error e =
    if says_not_found e
    then backend_not_found
    else if says_exists e
    then backend_already_exists
    else e

-- The error of a call, mapped.
abbrev pub map_result : {A : Type 0} → (Error → Error) → Result A → Result A
map_result f (ok a) = ok a
map_result f (err e) = err (f e)
map_result f panic = panic

unfoldable pub mapping : {S A : Type 0} → (Error → Error) → Act S A → Act S A
mapping f m s = let (r, s') = m s in (map_result f r, s')

-- if s.aiGateway == nil || !s.aiGateway.IsAvailable() { return ErrAIGatewayNotAvailable }
unfoldable pub if_available : {S A : Type 0} → Bool → Act S A → Act S A
if_available true m = m
if_available false m = λ s. (err ai_gateway_not_available, s)

-- err == nil
abbrev pub succeeded : {A : Type 0} → Result A → Result Bool
succeeded (ok a) = ok true
succeeded (err e) = ok false
succeeded panic = panic

module _ (u : Unstructured) (d : Dynamic) (c : Settings) where
  -- BackendService.Create
  unfoldable pub backend_create : Backend → Act d.State (Unit {0})
  unfolding if_available mapping
  backend_create b =
      if_available c.enabled (mapping map_envoy_backend_error (create_backend u d c b))

  -- BackendService.Get
  unfoldable pub backend_get : String → String → Act d.State Backend
  unfolding if_available mapping
  backend_get namespace name =
      if_available c.enabled (mapping map_envoy_backend_error (get_backend u d c namespace name))

  -- BackendService.List
  unfoldable pub backend_list : String → Act d.State (List Backend)
  unfolding if_available mapping
  backend_list namespace =
      if_available c.enabled (mapping map_envoy_backend_error (list_backends u d c namespace))

  -- BackendService.Update
  unfoldable pub backend_update : Backend → Act d.State (Unit {0})
  unfolding if_available mapping
  backend_update b =
      if_available c.enabled (mapping map_envoy_backend_error (update_backend u d c b))

  -- BackendService.Delete
  unfoldable pub backend_delete : String → String → Act d.State (Unit {0})
  unfolding if_available mapping
  backend_delete namespace name =
      if_available c.enabled (mapping map_envoy_backend_error (delete_backend u d c namespace name))

  -- BackendService.Exists
  unfoldable pub backend_exists : String → String → Act d.State Bool
  unfolding backend_get
  backend_exists namespace name s = let (r, s') = backend_get namespace name s in (succeeded r, s')

  -- AIServiceBackendService.Create
  unfoldable pub service_backend_create : AiServiceBackend → Act d.State (Unit {0})
  unfolding if_available mapping
  service_backend_create b =
      if_available c.enabled (mapping map_error (create_service_backend u d c b))

  -- AIServiceBackendService.Get
  unfoldable pub service_backend_get : String → String → Act d.State AiServiceBackend
  unfolding if_available mapping
  service_backend_get namespace name =
      if_available c.enabled (mapping map_error (get_service_backend u d c namespace name))

  -- AIServiceBackendService.List
  unfoldable pub service_backend_list : String → Act d.State (List AiServiceBackend)
  unfolding if_available mapping
  service_backend_list namespace =
      if_available c.enabled (mapping map_error (list_service_backends u d c namespace))

  -- AIServiceBackendService.Update
  unfoldable pub service_backend_update : AiServiceBackend → Act d.State (Unit {0})
  unfolding if_available mapping
  service_backend_update b =
      if_available c.enabled (mapping map_error (update_service_backend u d c b))

  -- AIServiceBackendService.Delete
  unfoldable pub service_backend_delete : String → String → Act d.State (Unit {0})
  unfolding if_available mapping
  service_backend_delete namespace name =
      if_available c.enabled (mapping map_error (delete_service_backend u d c namespace name))

  -- AIServiceBackendService.Exists
  unfoldable pub service_backend_exists : String → String → Act d.State Bool
  unfolding service_backend_get
  service_backend_exists namespace name s =
      let (r, s') = service_backend_get namespace name s in (succeeded r, s')
