-- ===== src/Cluster/Services/Errors.antt =====
-- What the backend services make of the errors of the server.
use model_registry_service.Base.{String, ◌≡◌, refl, true, contains, contains-append, ◌<>◌}
use model_registry_service.Domain.Result.{Error, err, text, wrapped, backend_not_found}
use model_registry_service.Cluster.Server.{
  Unstructured, Dynamic, ◌>>=◌, wrapping, ai_service_backend,
}
use model_registry_service.Cluster.Gateway.{Settings, namespace_or}
use model_registry_service.Cluster.Gateway.ServiceBackends.{
  AiServiceBackend, get_service_backend, update_service_backend, delete_service_backend,
}
use model_registry_service.Cluster.Services.{
  says_not_found, map_error, service_backend_get, service_backend_update, service_backend_delete,
}

-- What the server says is found behind the text that the client puts before it.
contains_wrapped :
    (before : String) (e : Error) (t : String)
    → contains (text e) t ≡ true
    → contains (text (wrapped before e)) t ≡ true
unfolding text
contains_wrapped before e t h = contains-append (before <> ": ") (text e) t h

map_error-missing :
    (before : String) (e : Error)
    → contains (text e) "not found" ≡ true
    → map_error (wrapped before e) ≡ backend_not_found
unfolding map_error says_not_found
map_error-missing before e h = rw (contains_wrapped before e "not found" h) refl

module _ (u : Unstructured) (d : Dynamic) (c : Settings) (b : AiServiceBackend) {s s' : d.State}
    {e : Error} (available : c.enabled ≡ true)
    (missing : d.read ai_service_backend (namespace_or c.default_ns b.namespace) b.name s
      ≡ (err e, s'))
    (gone : d.delete ai_service_backend (namespace_or c.default_ns b.namespace) b.name s
      ≡ (err e, s'))
    (says : contains (text e) "not found" ≡ true) where
  -- If the gateway is available and the server answers the read or the removal of an
  -- AIServiceBackend by an error whose text has "not found" in it, then Get, Update and Delete of the
  -- service return ErrBackendNotFound, though the client has put a text of its own before the error.
  pub service_backend-missing :
      (service_backend_get u d c b.namespace b.name s ≡ (err backend_not_found, s'))
      × (service_backend_update u d c b s ≡ (err backend_not_found, s'))
      × (service_backend_delete u d c b.namespace b.name s ≡ (err backend_not_found, s'))
  unfolding service_backend_get service_backend_update service_backend_delete get_service_backend
      update_service_backend delete_service_backend ◌>>=◌ wrapping
  service_backend-missing = (
    rw (available, missing, map_error-missing "get aiservicebackend" e says) refl,
    rw (available, missing, map_error-missing "get aiservicebackend" e says) refl,
    rw (available, gone, map_error-missing "delete aiservicebackend" e says) refl,
  )
