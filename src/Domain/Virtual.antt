-- ===== src/Domain/Virtual.antt =====
-- internal/core/domain/virtual_model.go: names of models that are mapped to backends. The status of
-- either is a Go string.
use model_registry_service.Base.{
  String, Bool, ◌||◌, Option, none, some, List, [], ◌∷◌, ◌==◌, if◌then◌else◌, str_eq, keep, ℤ, pos,
  ltb_ℤ, ◌+ℤ◌,
}
use model_registry_service.Domain.Result.{
  Result, ok, err, missing_project_id, invalid_virtual_model_name, invalid_backend_name,
  invalid_traffic_weight, invalid_priority,
}
use model_registry_service.Domain.Traffic.{Uuid, nil_uuid, Time}

pub record VirtualModelBackend : Type 0 where
  pub id : Uuid
  pub created_at : Time
  pub updated_at : Time
  pub virtual_model_id : Uuid
  pub ai_service_backend_name : String
  pub ai_service_backend_namespace : String
  pub model_name_override : Option String
  pub weight : ℤ
  pub priority : ℤ
  pub status : String

pub record VirtualModel : Type 0 where
  pub id : Uuid
  pub created_at : Time
  pub updated_at : Time
  pub project_id : Uuid
  pub name : String
  pub description : String
  pub ai_gateway_route_name : String
  pub status : String
  -- Filled in by the repository, no column of the table.
  pub backends : List VirtualModelBackend

-- NewVirtualModel
unfoldable pub new_virtual_model : Uuid → Time → Uuid → String → Result VirtualModel
new_virtual_model id now project_id name =
    if project_id == nil_uuid
    then err missing_project_id
    else if str_eq name ""
    then err invalid_virtual_model_name
    else ok (record {
      id = id;
      created_at = now;
      updated_at = now;
      project_id = project_id;
      name = name;
      description = "";
      ai_gateway_route_name = "";
      status = "active";
      backends = [];
    })

-- GetBackend, on the backends
unfoldable pub named_backend : String → List VirtualModelBackend → Option VirtualModelBackend
named_backend name [] = none
named_backend name (b ∷ bs) =
    if str_eq b.ai_service_backend_name name then some b else named_backend name bs

-- GetBackendByID, on the backends
unfoldable pub backend_by_id : Uuid → List VirtualModelBackend → Option VirtualModelBackend
backend_by_id id [] = none
backend_by_id id (b ∷ bs) = if b.id == id then some b else backend_by_id id bs

abbrev pub is_active : VirtualModelBackend → Bool
is_active b = str_eq b.status "active"

-- GetActiveBackends
unfoldable pub get_active_backends : VirtualModel → List VirtualModelBackend
get_active_backends vm = keep is_active vm.backends

unfoldable pub sum_weights : ℤ → List VirtualModelBackend → ℤ
sum_weights total [] = total
sum_weights total (b ∷ bs) = sum_weights (if is_active b then total +ℤ b.weight else total) bs

-- TotalWeight
unfoldable pub total_weight : VirtualModel → ℤ
unfolding sum_weights
total_weight vm = sum_weights (pos 0) vm.backends

-- weight < 0 || weight > 100
abbrev pub out_of_range : ℤ → Bool
out_of_range weight = ltb_ℤ weight (pos 0) || ltb_ℤ (pos 100) weight

-- NewVirtualModelBackend
unfoldable pub new_virtual_model_backend :
    Uuid → Time → Uuid → String → Option String → ℤ → ℤ → Result VirtualModelBackend
new_virtual_model_backend id now vm_id name model_override weight priority =
    if str_eq name ""
    then err invalid_backend_name
    else if out_of_range weight
    then err invalid_traffic_weight
    else if ltb_ℤ priority (pos 0)
    then err invalid_priority
    else ok (record {
      id = id;
      created_at = now;
      updated_at = now;
      virtual_model_id = vm_id;
      ai_service_backend_name = name;
      ai_service_backend_namespace = "";
      model_name_override = model_override;
      weight = weight;
      priority = priority;
      status = "active";
    })

-- GetEffectiveModelName
unfoldable pub get_effective_model_name : String → VirtualModelBackend → String
get_effective_model_name virtual_name b = elim b.model_name_override [
  | none ↦ virtual_name
  | some name ↦ if str_eq name "" then virtual_name else name
]
