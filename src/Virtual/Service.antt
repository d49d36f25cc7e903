-- ===== src/Virtual/Service.antt =====
-- internal/core/services/virtual_model.go. The gateway is there if its client is enabled; its calls
-- act on the cluster alone.
pub mod Reads
pub mod Names
pub mod Statements
pub mod Sessions
pub mod Removal
pub mod Mirror
use model_registry_service.Base.{
  ℕ, String, ◌<>◌, Bool, true, false, not, ◌&&◌, Option, none, some, List, [], ◌∷◌, if◌then◌else◌,
  str_eq, map, ℤ,
}
use model_registry_service.Domain.Result.{
  Result, ok, err, panic, Error, backend_already_exists, backend_not_found,
}
use model_registry_service.Domain.Traffic.{Uuid}
use model_registry_service.Domain.Virtual.{
  VirtualModel, VirtualModelBackend, new_virtual_model, new_virtual_model_backend, named_backend,
  backend_by_id, get_active_backends,
}
use model_registry_service.Store.World.{Oracle}
use model_registry_service.Cluster.Server.{
  Unstructured, Dynamic, Act, pure, lift, raise_if, or_raise, ◌>>=◌, ◌>>◌, ignore,
}
use model_registry_service.Cluster.Gateway.{WeightedBackend, AiGatewayRoute, Settings}
use model_registry_service.Cluster.Gateway.Routes.{
  create_route, delete_route, update_traffic_weights,
}
use model_registry_service.Cluster.Gateway.ServiceBackends.{AiServiceBackend, get_service_backend}
use model_registry_service.Virtual.Tables.{
  World, time_now, new_uuid, vm_create, vm_get_by_id, vm_get_by_name, vm_update, vm_delete,
  vm_create_backend, vm_update_backend, vm_delete_backend,
}

pub record CreateVirtualModelRequest : Type 0 where
  pub project_id : Uuid
  pub name : String
  pub description : String

pub record AddBackendRequest : Type 0 where
  pub project_id : Uuid
  pub virtual_model_name : String
  pub ai_service_backend_name : String
  pub ai_service_backend_ns : String
  pub model_name_override : Option String
  pub weight : ℤ
  pub priority : ℤ

-- A backend of the route.
unfoldable pub weighted : VirtualModelBackend → WeightedBackend
weighted b = record {
  name = b.ai_service_backend_name;
  namespace = b.ai_service_backend_namespace;
  weight = b.weight;
  priority = b.priority;
  variant_tag = "";
  model_name_override = b.model_name_override;
}

abbrev pub is_some {ℓ} : {A : Type ℓ} → Option A → Bool
is_some none = false
is_some (some a) = true

-- fmt.Errorf("backend %s/%s not found: %w", …)
abbrev pub missing_as : {A : Type 0} → String → Result A → Result (Unit {0})
missing_as text (ok a) = ok tt
missing_as text (err e) = err (Error.wrapped text backend_not_found)
missing_as text panic = panic

-- The namespace of a backend in a request.
abbrev pub backend_ns : String → String
backend_ns ns = if str_eq ns "" then "model-serving" else ns

-- A call of the client.
unfoldable pub on_cluster : {d : Dynamic} {A : Type 0} → Act d.State A → Act (World d) A
on_cluster m w = let (r, s) = m w.cluster in (r, record w { cluster = s })

-- The route of a new virtual model.
unfoldable pub route_of : Oracle → VirtualModel → AiGatewayRoute
route_of E vm = record {
  name = "vm-" <> E.uuid_prefix vm.id;
  namespace = "model-serving";
  model_name = vm.name;
  backends = [];
  rate_limit = none;
  labels = some (("virtual-model-id", E.uuid_text vm.id) ∷ []);
  llm_request_costs = [];
}

module _ (E : Oracle) (u : Unstructured) (d : Dynamic) (c : Settings) where
  -- The call of CreateRoute and what follows if it succeeds; its error is only logged.
  abbrev pub record_route : Uuid → VirtualModel → Result (Unit {0}) → Act (World d) (Unit {0})
  record_route project_id vm (ok created) =
      ignore (vm_update E d project_id (record vm { ai_gateway_route_name = (route_of E vm).name }))
  record_route project_id vm (err e) = pure tt
  record_route project_id vm panic = lift panic

  unfoldable pub open_route : Uuid → VirtualModel → Act (World d) (Unit {0})
  unfolding on_cluster route_of
  open_route project_id vm w =
      let (r, w') = on_cluster (create_route u d c (route_of E vm)) w in
      record_route project_id vm r w'

  -- Create
  unfoldable pub create_virtual_model : CreateVirtualModelRequest → Act (World d) VirtualModel
  unfolding open_route
  create_virtual_model req = do
    now ← time_now E d
    id ← new_uuid E d
    made ← lift (new_virtual_model id now req.project_id req.name)
    let vm = record made { description = req.description }
    vm_create E d vm
    if c.enabled then open_route req.project_id vm else pure tt
    vm_get_by_id E d req.project_id vm.id

  -- Delete
  unfoldable pub delete_virtual_model : Uuid → String → Act (World d) (Unit {0})
  unfolding on_cluster
  delete_virtual_model project_id name = do
    vm ← vm_get_by_name E d project_id name
    if not (str_eq vm.ai_gateway_route_name "") && c.enabled
        then ignore (on_cluster (delete_route u d c "model-serving" vm.ai_gateway_route_name))
        else pure tt
    vm_delete E d project_id vm.id

  -- The end of syncAIGatewayRoute: the virtual model is read again, and its active backends pushed.
  unfoldable pub push_backends : VirtualModel → Act (World d) (Unit {0})
  unfolding on_cluster weighted
  push_backends vm = do
    fresh ← vm_get_by_id E d vm.project_id vm.id
    on_cluster (
        update_traffic_weights u d c "model-serving" fresh.ai_gateway_route_name
          (map weighted (get_active_backends fresh)))

  -- syncAIGatewayRoute
  unfoldable pub sync_route : VirtualModel → Act (World d) (Unit {0})
  unfolding push_backends
  sync_route vm =
      if not c.enabled
      then pure tt
      else if str_eq vm.ai_gateway_route_name ""
      then pure tt
      else push_backends vm

  -- The check that the AIServiceBackend exists.
  unfoldable pub check_service_backend : String → String → Act (World d) (Unit {0})
  unfolding on_cluster
  check_service_backend ns name w =
      let (r, w') = on_cluster (get_service_backend u d c ns name) w in
      (missing_as ("backend " <> ns <> "/" <> name <> " not found") r, w')

  -- AddBackend
  unfoldable pub add_backend : AddBackendRequest → Act (World d) VirtualModel
  unfolding check_service_backend sync_route
  add_backend req = do
    vm ← vm_get_by_name E d req.project_id req.virtual_model_name
    raise_if (is_some (named_backend req.ai_service_backend_name vm.backends))
        backend_already_exists
    let ns = backend_ns req.ai_service_backend_ns
    if c.enabled then check_service_backend ns req.ai_service_backend_name else pure tt
    now ← time_now E d
    id ← new_uuid E d
    made ← lift (
        new_virtual_model_backend id now vm.id req.ai_service_backend_name req.model_name_override
          req.weight req.priority)
    vm_create_backend E d (record made { ai_service_backend_namespace = ns })
    ignore (sync_route vm)
    vm_get_by_name E d req.project_id req.virtual_model_name

  -- UpdateBackend
  unfoldable pub update_backend : Uuid → String → Uuid → ℤ → ℤ → Act (World d) VirtualModel
  unfolding sync_route
  update_backend project_id vm_name backend_id weight priority = do
    vm ← vm_get_by_name E d project_id vm_name
    found ← or_raise backend_not_found (backend_by_id backend_id vm.backends)
    vm_update_backend E d (record found { weight = weight; priority = priority })
    ignore (sync_route vm)
    vm_get_by_name E d project_id vm_name

  -- DeleteBackend
  unfoldable pub delete_backend : Uuid → String → Uuid → Act (World d) VirtualModel
  unfolding sync_route
  delete_backend project_id vm_name backend_id = do
    vm ← vm_get_by_name E d project_id vm_name
    vm_delete_backend E d backend_id
    ignore (sync_route vm)
    vm_get_by_name E d project_id vm_name
