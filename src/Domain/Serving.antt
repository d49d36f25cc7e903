-- ===== src/Domain/Serving.antt =====
-- internal/core/domain/serving.go: serving environments, inference services and serve models.
-- The joined display fields and the labels of an inference service are left out: no operation
-- that is modelled reads them.
pub mod States
use model_registry_service.Base.{
  ℕ, String, Bool, true, false, not, ◌&&◌, ◌||◌, Option, none, some, ◌==◌, if◌then◌else◌, str_eq,
  List,
}
use model_registry_service.Domain.Result.{
  Result, ok, err, missing_project_id, invalid_serving_env_name, invalid_inference_service_name,
  invalid_serving_env_id, invalid_model_id, invalid_inference_service_id, invalid_version_id,
}
use model_registry_service.Domain.Traffic.{Uuid, nil_uuid, Time}

pub data InferenceServiceState : Type 0 where
  deployed undeployed : InferenceServiceState

pub data ServeModelState : Type 0 where
  pending running failed : ServeModelState

pub record ServingEnvironment : Type 0 where
  pub id : Uuid
  pub created_at : Time
  pub updated_at : Time
  pub project_id : Uuid
  pub name : String
  pub description : String
  pub external_id : String

-- NewServingEnvironment
unfoldable pub new_serving_environment :
    Uuid → Time → Uuid → String → String → Result ServingEnvironment
new_serving_environment id now project_id name description =
    if str_eq name ""
    then err invalid_serving_env_name
    else if project_id == nil_uuid
    then err missing_project_id
    else ok (record {
      id = id;
      created_at = now;
      updated_at = now;
      project_id = project_id;
      name = name;
      description = description;
      external_id = "";
    })

-- What a pointer overwrites: nothing if it is nil.
abbrev pub or_else {ℓ} : {A : Type ℓ} → Option A → A → A
or_else none a = a
or_else (some b) a = b

-- ServingEnvironment.Update
unfoldable pub update_environment :
    Time → Option String → Option String → ServingEnvironment → ServingEnvironment
update_environment now name description e = record e {
  name = or_else name e.name;
  description = or_else description e.description;
  updated_at = now;
}

pub record InferenceService : Type 0 where
  pub id : Uuid
  pub created_at : Time
  pub updated_at : Time
  pub project_id : Uuid
  pub name : String
  pub external_id : String
  pub serving_environment_id : Uuid
  pub registered_model_id : Uuid
  pub desired_state : InferenceServiceState
  pub current_state : InferenceServiceState
  pub runtime : String
  pub url : String
  pub last_error : String

-- NewInferenceService
unfoldable pub new_inference_service :
    Uuid → Time → Uuid → String → Uuid → Uuid → Result InferenceService
new_inference_service id now project_id name env_id model_id =
    if str_eq name ""
    then err invalid_inference_service_name
    else if project_id == nil_uuid
    then err missing_project_id
    else if env_id == nil_uuid
    then err invalid_serving_env_id
    else if model_id == nil_uuid
    then err invalid_model_id
    else ok (record {
      id = id;
      created_at = now;
      updated_at = now;
      project_id = project_id;
      name = name;
      external_id = "";
      serving_environment_id = env_id;
      registered_model_id = model_id;
      desired_state = deployed;
      current_state = undeployed;
      runtime = "kserve";
      url = "";
      last_error = "";
    })

-- InferenceService.Deploy
unfoldable pub deploy : Time → InferenceService → InferenceService
deploy now is = record is { desired_state = deployed; updated_at = now }

-- InferenceService.Undeploy
unfoldable pub undeploy : Time → InferenceService → InferenceService
undeploy now is = record is { desired_state = undeployed; updated_at = now }

-- MarkDeployed
unfoldable pub mark_deployed : Time → String → InferenceService → InferenceService
mark_deployed now url is = record is {
  current_state = deployed;
  url = url;
  last_error = "";
  updated_at = now;
}

-- MarkUndeployed
unfoldable pub mark_undeployed : Time → InferenceService → InferenceService
mark_undeployed now is = record is { current_state = undeployed; url = ""; updated_at = now }

-- MarkFailed
unfoldable pub mark_failed : Time → String → InferenceService → InferenceService
mark_failed now error is = record is { last_error = error; updated_at = now }

abbrev pub state_eq : InferenceServiceState → InferenceServiceState → Bool
state_eq deployed deployed = true
state_eq undeployed undeployed = true
state_eq _ _ = false

-- IsDeployed
unfoldable pub is_deployed : InferenceService → Bool
is_deployed is = state_eq is.current_state deployed

-- NeedsReconciliation
unfoldable pub needs_reconciliation : InferenceService → Bool
needs_reconciliation is = not (state_eq is.desired_state is.current_state)

-- SetExternalID
unfoldable pub set_external_id : Time → String → InferenceService → InferenceService
set_external_id now external_id is = record is { external_id = external_id; updated_at = now }

pub record ServeModel : Type 0 where
  pub id : Uuid
  pub created_at : Time
  pub updated_at : Time
  pub project_id : Uuid
  pub inference_service_id : Uuid
  pub model_version_id : Uuid
  pub last_known_state : ServeModelState

-- NewServeModel
unfoldable pub new_serve_model : Uuid → Time → Uuid → Uuid → Uuid → Result ServeModel
new_serve_model id now project_id isvc_id version_id =
    if project_id == nil_uuid
    then err missing_project_id
    else if isvc_id == nil_uuid
    then err invalid_inference_service_id
    else if version_id == nil_uuid
    then err invalid_version_id
    else ok (record {
      id = id;
      created_at = now;
      updated_at = now;
      project_id = project_id;
      inference_service_id = isvc_id;
      model_version_id = version_id;
      last_known_state = pending;
    })

-- SetState
unfoldable pub set_state : Time → ServeModelState → ServeModel → ServeModel
set_state now state sm = record sm { last_known_state = state; updated_at = now }
