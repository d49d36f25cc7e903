-- ===== src/Deploy.antt =====
-- internal/core/services/deploy.go: DeployService over the tables and the client of KServe.
pub mod Outcome
pub mod Undeployment
use model_registry_service.Base.{
  ℕ, String, Bool, true, false, Option, none, some, List, [], ◌∷◌, if◌then◌else◌, str_eq, ◌<>◌,
}
use model_registry_service.Domain.Result.{
  Result, ok, err, panic, message, wrapped, text, version_not_ready,
}
use model_registry_service.Domain.Traffic.{Uuid}
use model_registry_service.Domain.Serving.{
  InferenceService, ServingEnvironment, ServeModel, ServeModelState, new_inference_service,
  new_serve_model, mark_failed, mark_deployed, mark_undeployed, undeploy, set_external_id,
  set_state,
}
use model_registry_service.Domain.Registry.{ModelVersion, RegisteredModel, VersionStatus}
use model_registry_service.Store.World.{
  Oracle, M, Reply, KserveDeployment, KserveStatus, pure, raise, lift, deref, from_reply, ◌>>=◌,
  ◌>>◌, attempt, ignore, wrapping, tick, new_uuid, time_now,
}
use model_registry_service.Store.Serving.{
  env_get_by_id, model_get_by_id, version_get_by_id, isvc_get_by_id, isvc_create, isvc_update,
  serve_model_create, serve_model_get_by_id, serve_model_update, serve_model_delete,
  serve_models_of,
}
use model_registry_service.Traffic.Route.{namespace_of, kserve_deploy, kserve_undeploy}

-- The labels of the request are left out, as those of the service are.
pub record DeployRequest : Type 0 where
  pub project_id : Uuid
  pub registered_model_id : Uuid
  pub model_version_ids : List Uuid
  pub serving_environment_id : Uuid
  pub name : String

pub record DeployResult : Type 0 where
  pub inference_service : InferenceService
  pub served_models : List ServeModel
  pub status : String
  pub message : String

abbrev pub is_ready : VersionStatus → Bool
is_ready VersionStatus.ready = true
is_ready _ = false

abbrev pub first : {A : Type 0} → List A → Option A
first [] = none
first (x ∷ xs) = some x

-- The version that is deployed if the request names none.
unfoldable pub default_versions : RegisteredModel → Result (List ModelVersion)
default_versions model = elim model.default_version [
  | some v ↦ ok (v ∷ [])
  | none ↦ elim model.latest_version [
    | some v ↦ ok (v ∷ [])
    | none ↦ err (message "no model version available for deployment")
  ]
]

-- The loop over the versions that stops at the first that is not ready.
unfoldable pub check_ready : List ModelVersion → Result (Unit {0})
check_ready [] = ok tt
check_ready (v ∷ vs) =
    let rest = check_ready vs in
    if is_ready v.status then rest else err (wrapped ("version " <> v.name) version_not_ready)

-- What a call to a client answers, as a value.
abbrev reply_of : {A : Type 0} → Result A → Result (Reply A)
reply_of (ok a) = ok (Reply.done a)
reply_of (err e) = ok (Reply.refused e)
reply_of panic = panic

unfoldable pub answer : {A : Type 0} → M A → M (Reply A)
answer m w = let (r, w') = m w in (reply_of r, w')

-- SyncStatus: what the service becomes, by what KServe reports.
unfoldable pub observe : ℕ → KserveStatus → InferenceService → InferenceService
observe now status isvc =
    if status.ready
    then mark_deployed now status.url isvc
    else if str_eq status.error ""
    then isvc
    else mark_failed now status.error isvc

module _ (E : Oracle) where
  unfoldable pub get_versions : Uuid → List Uuid → M (List ModelVersion)
  get_versions project_id [] = pure []
  get_versions project_id (id ∷ ids) = do
    v ← wrapping ("get version " <> E.uuid_text id) (version_get_by_id E project_id id)
    vs ← get_versions project_id ids
    pure (v ∷ vs)

  -- resolveVersions
  unfoldable pub resolve_versions : Uuid → List Uuid → RegisteredModel → M (List ModelVersion)
  resolve_versions project_id [] model = lift (default_versions model)
  resolve_versions project_id (id ∷ ids) model = get_versions project_id (id ∷ ids)

  unfoldable pub deployment_name : DeployRequest → RegisteredModel → List ModelVersion → M String
  deployment_name req model versions =
      if str_eq req.name ""
      then (do v ← deref (first versions); pure (model.slug <> "-" <> E.uuid_prefix v.id))
      else pure req.name

  -- The loop that stores a serve model for each version.
  unfoldable pub create_serve_models : Uuid → Uuid → List ModelVersion → M (List ServeModel)
  create_serve_models project_id isvc_id [] = pure []
  create_serve_models project_id isvc_id (v ∷ vs) = do
    id ← new_uuid E
    now ← time_now E
    sm ← wrapping "create serve model" (lift (new_serve_model id now project_id isvc_id v.id))
    wrapping "save serve model" (serve_model_create E sm)
    sms ← create_serve_models project_id isvc_id vs
    pure (sm ∷ sms)

  -- The loop that gives every serve model a state; the errors of the updates are dropped.
  unfoldable pub set_states : Uuid → ServeModelState → List ServeModel → M (List ServeModel)
  set_states project_id state [] = pure []
  set_states project_id state (sm ∷ sms) = do
    now ← time_now E
    ignore (serve_model_update E project_id (set_state now state sm))
    rest ← set_states project_id state sms
    pure (set_state now state sm ∷ rest)

  unfoldable pub settle_deployment :
      Uuid → InferenceService → List ServeModel → Reply KserveDeployment → M DeployResult
  settle_deployment project_id isvc served (Reply.refused e) = do
    now ← time_now E
    ignore (isvc_update E project_id (mark_failed now (text e) isvc))
    failed ← set_states project_id ServeModelState.failed served
    pure (record {
      inference_service = mark_failed now (text e) isvc;
      served_models = failed;
      status = "FAILED";
      message = text e;
    })
  settle_deployment project_id isvc served (Reply.done deployment) = do
    now ← time_now E
    ignore (isvc_update E project_id (set_external_id now deployment.external_id isvc))
    pure (record {
      inference_service = set_external_id now deployment.external_id isvc;
      served_models = served;
      status = "PENDING";
      message = "Deployment initiated";
    })

  -- Step 9: the first version is deployed, if there is a client.
  unfoldable pub run_deployment :
      Uuid
      → ServingEnvironment
      → InferenceService
      → List ServeModel
      → List ModelVersion
      → M DeployResult
  run_deployment project_id env isvc served versions = do
    version ← deref (first versions)
    outcome ← answer (kserve_deploy E (namespace_of env) isvc version)
    settle_deployment project_id isvc served outcome

  -- Deploy
  unfoldable pub deploy : DeployRequest → M DeployResult
  deploy req = do
    env ←
        wrapping "get serving environment"
          (env_get_by_id E req.project_id req.serving_environment_id)
    model ← wrapping "get model" (model_get_by_id E req.project_id req.registered_model_id)
    versions ← resolve_versions req.project_id req.model_version_ids model
    lift (check_ready versions)
    name ← deployment_name req model versions
    id ← new_uuid E
    now ← time_now E
    isvc ← lift (new_inference_service id now req.project_id name env.id model.id)
    wrapping "create inference service" (isvc_create E isvc)
    served ← create_serve_models req.project_id isvc.id versions
    found ← attempt (isvc_get_by_id E req.project_id isvc.id)
    loaded ← deref found
    if E.kserve_available
        then run_deployment req.project_id env loaded served versions
        else pure (record {
          inference_service = loaded;
          served_models = served;
          status = "PENDING";
          message = "Deployment initiated";
        })

  -- AddModelVersion
  unfoldable pub add_model_version : Uuid → Uuid → Uuid → M ServeModel
  add_model_version project_id isvc_id version_id = do
    isvc ← isvc_get_by_id E project_id isvc_id
    version ← version_get_by_id E project_id version_id
    if is_ready version.status then pure tt else raise version_not_ready
    id ← new_uuid E
    now ← time_now E
    sm ← lift (new_serve_model id now project_id isvc.id version_id)
    wrapping "create serve model" (serve_model_create E sm)
    serve_model_get_by_id E project_id sm.id

  -- RemoveModelVersion
  unfoldable pub remove_model_version : Uuid → Uuid → M (Unit {0})
  remove_model_version project_id serve_model_id = serve_model_delete E project_id serve_model_id

  -- GetServedModels
  unfoldable pub get_served_models : Uuid → Uuid → M (List ServeModel)
  get_served_models project_id isvc_id = serve_models_of E project_id isvc_id

  -- Undeploy
  unfoldable pub undeploy_service : Uuid → Uuid → M (Unit {0})
  undeploy_service project_id isvc_id = do
    isvc ← isvc_get_by_id E project_id isvc_id
    env ← env_get_by_id E project_id isvc.serving_environment_id
    if E.kserve_available then ignore (kserve_undeploy E (namespace_of env) isvc.name) else pure tt
    now ← time_now E
    isvc_update E project_id (mark_undeployed now (undeploy now isvc))

  -- SyncStatus: every serve model of the service is running.
  unfoldable pub run_served_models : Uuid → Uuid → M (List ServeModel)
  run_served_models project_id isvc_id = do
    found ← attempt (serve_models_of E project_id isvc_id)
    set_states project_id ServeModelState.running (elim found [ none ↦ [] | some sms ↦ sms ])

  -- SyncStatus: the service that it stores, by what KServe reports.
  unfoldable pub reported : Uuid → Uuid → InferenceService → KserveStatus → M InferenceService
  reported project_id isvc_id isvc status = do
    now ← time_now E
    if status.ready then ignore (run_served_models project_id isvc_id) else pure tt
    pure (observe now status isvc)

  kserve_get_status : M KserveStatus
  kserve_get_status = do k ← tick; lift (from_reply (E.kserve_status k))

  refresh : Uuid → Uuid → InferenceService → M (InferenceService × List ServeModel)
  refresh project_id isvc_id isvc = do
    env ← env_get_by_id E project_id isvc.serving_environment_id
    status ← kserve_get_status
    updated ← reported project_id isvc_id isvc status
    now ← time_now E
    isvc_update E project_id (record updated { updated_at = now })
    found ← attempt (isvc_get_by_id E project_id isvc_id)
    loaded ← deref found
    sms ← attempt (serve_models_of E project_id isvc_id)
    pure (loaded, elim sms [ none ↦ [] | some l ↦ l ])

  -- SyncStatus: the service, with the serve models that it is loaded with.
  unfoldable pub sync_status : Uuid → Uuid → M (InferenceService × List ServeModel)
  unfolding refresh kserve_get_status
  sync_status project_id isvc_id = do
    isvc ← isvc_get_by_id E project_id isvc_id
    if E.kserve_available then refresh project_id isvc_id isvc else pure (isvc, [])

  -- IsKServeAvailable
  unfoldable pub is_kserve_available : Bool
  is_kserve_available = E.kserve_available
