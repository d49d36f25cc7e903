-- ===== src/Store/Serving.antt =====
-- The lookups and writes of internal/adapters/secondary/postgres that the services call on serving
-- environments, inference services, serve models, registered models and model versions. The inner
-- joins of the queries lose no row, as the foreign keys of migrations/000002 hold.
pub mod Writes
use model_registry_service.Base.{
  ℕ, String, Bool, true, false, not, ◌&&◌, ◌||◌, Option, none, some, List, [], ◌∷◌, ◌++◌, ◌==◌,
  if◌then◌else◌, str_eq, leb, keep, length,
}
use model_registry_service.Domain.Result.{
  serving_env_not_found, inference_service_not_found, serve_model_not_found, version_not_found,
  model_not_found, inference_service_name_conflict, unique_violation,
}
use model_registry_service.Domain.Traffic.{Uuid, Time}
use model_registry_service.Domain.Serving.{ServingEnvironment, InferenceService, ServeModel}
use model_registry_service.Domain.Registry.{ModelVersion, RegisteredModel}
use model_registry_service.Store.World.{
  Oracle, World, M, gets, pure, modify, or_raise, raise_if, ◌>>=◌, ◌>>◌, wrapping, time_now,
  reach_database,
}

unfoldable pub environment_row : Uuid → Uuid → List ServingEnvironment → Option ServingEnvironment
environment_row project_id id [] = none
environment_row project_id id (e ∷ es) =
    if e.id == id && e.project_id == project_id then some e else environment_row project_id id es

unfoldable pub isvc_row : Uuid → Uuid → List InferenceService → Option InferenceService
isvc_row project_id id [] = none
isvc_row project_id id (s ∷ ss) =
    if s.id == id && s.project_id == project_id then some s else isvc_row project_id id ss

unfoldable pub model_row : Uuid → Uuid → List RegisteredModel → Option RegisteredModel
model_row project_id id [] = none
model_row project_id id (m ∷ ms) =
    if m.id == id && m.project_id == project_id then some m else model_row project_id id ms

-- SELECT COUNT(*) FROM model_version mv WHERE mv.registered_model_id = rm.id
abbrev pub count_of : Uuid → List ModelVersion → ℕ
count_of id rows = length (keep (λ v. v.registered_model_id == id) rows)

-- ORDER BY created_at DESC LIMIT 1
unfoldable pub latest_of : Uuid → List ModelVersion → Option ModelVersion
latest_of id [] = none
latest_of id (v ∷ vs) =
    let rest = latest_of id vs in
    if v.registered_model_id == id
    then elim rest [
      | none ↦ some v
      | some r ↦ if leb r.created_at v.created_at then some v else some r
    ]
    else rest

-- WHERE is_default = true LIMIT 1
unfoldable pub default_of : Uuid → List ModelVersion → Option ModelVersion
default_of id [] = none
default_of id (v ∷ vs) =
    if v.registered_model_id == id && v.is_default then some v else default_of id vs

-- JOIN registered_model rm ON rm.id = mv.registered_model_id WHERE mv.id = $1 AND rm.project_id = $2
unfoldable pub version_row :
    Uuid → Uuid → List RegisteredModel → List ModelVersion → Option ModelVersion
unfolding model_row
version_row project_id id models [] = none
version_row project_id id models (v ∷ vs) =
    if v.id == id
      && elim (model_row project_id v.registered_model_id models) [ none ↦ false | some _ ↦ true ]
    then some v
    else version_row project_id id models vs

unfoldable pub serve_model_row : Uuid → Uuid → List ServeModel → Option ServeModel
serve_model_row project_id id [] = none
serve_model_row project_id id (m ∷ ms) =
    if m.id == id && m.project_id == project_id then some m else serve_model_row project_id id ms

-- The primary key, and uq_inference_service_env_name.
unfoldable pub isvc_clashes : InferenceService → List InferenceService → Bool
isvc_clashes s [] = false
isvc_clashes s (r ∷ rs) =
    (r.id == s.id || (r.serving_environment_id == s.serving_environment_id && str_eq r.name s.name))
    || isvc_clashes s rs

-- The same among the other rows, for a row that is rewritten.
unfoldable pub isvc_name_taken : Uuid → Uuid → String → List InferenceService → Bool
isvc_name_taken self env_id name [] = false
isvc_name_taken self env_id name (r ∷ rs) =
    (not (r.id == self) && (r.serving_environment_id == env_id && str_eq r.name name))
    || isvc_name_taken self env_id name rs

unfoldable pub isvc_overwrite : Time → InferenceService → InferenceService → InferenceService
isvc_overwrite now s r = record r {
  name = s.name;
  external_id = s.external_id;
  desired_state = s.desired_state;
  current_state = s.current_state;
  runtime = s.runtime;
  url = s.url;
  last_error = s.last_error;
  updated_at = now;
}

unfoldable pub update_isvcs :
    Time → Uuid → InferenceService → List InferenceService → List InferenceService
unfolding isvc_overwrite
update_isvcs now project_id s [] = []
update_isvcs now project_id s (r ∷ rs) =
    (if r.id == s.id && r.project_id == project_id then isvc_overwrite now s r else r)
    ∷ update_isvcs now project_id s rs

-- The primary key, and uq_serve_model_isvc_version.
serve_model_clashes : ServeModel → List ServeModel → Bool
serve_model_clashes m [] = false
serve_model_clashes m (r ∷ rs) =
    (r.id == m.id
      || (r.inference_service_id == m.inference_service_id
          && r.model_version_id == m.model_version_id))
    || serve_model_clashes m rs

update_serve_models : Time → Uuid → ServeModel → List ServeModel → List ServeModel
update_serve_models now project_id m [] = []
update_serve_models now project_id m (r ∷ rs) =
    (if r.id == m.id && r.project_id == project_id
      then record r { last_known_state = m.last_known_state; updated_at = now }
      else r)
    ∷ update_serve_models now project_id m rs

-- ORDER BY sm.created_at DESC
insert_newest_first : ServeModel → List ServeModel → List ServeModel
insert_newest_first m [] = m ∷ []
insert_newest_first m (x ∷ xs) =
    if leb x.created_at m.created_at then m ∷ x ∷ xs else x ∷ insert_newest_first m xs

newest_first : List ServeModel → List ServeModel
unfolding insert_newest_first
newest_first [] = []
newest_first (m ∷ ms) = insert_newest_first m (newest_first ms)

module _ (E : Oracle) where
  -- servingEnvironmentRepo.GetByID
  unfoldable pub env_get_by_id : Uuid → Uuid → M ServingEnvironment
  unfolding environment_row
  env_get_by_id project_id id = do
    wrapping "get serving environment by id" (reach_database E)
    rows ← gets (λ w. w.environments)
    or_raise serving_env_not_found (environment_row project_id id rows)

  -- loadVersionMeta
  unfoldable pub load_version_meta : RegisteredModel → M RegisteredModel
  load_version_meta model = do
    wrapping "load latest version" (reach_database E)
    rows ← gets (λ w. w.versions)
    wrapping "load default version" (reach_database E)
    pure (record model {
      latest_version = latest_of model.id rows;
      default_version = default_of model.id rows;
    })

  -- registeredModelRepo.GetByID
  unfoldable pub model_get_by_id : Uuid → Uuid → M RegisteredModel
  model_get_by_id project_id id = do
    wrapping "get registered model by id" (reach_database E)
    rows ← gets (λ w. w.models)
    model ← or_raise model_not_found (model_row project_id id rows)
    versions ← gets (λ w. w.versions)
    load_version_meta (record model { version_count = count_of model.id versions })

  -- modelVersionRepo.GetByID
  unfoldable pub version_get_by_id : Uuid → Uuid → M ModelVersion
  unfolding version_row
  version_get_by_id project_id id = do
    wrapping "get model version by id" (reach_database E)
    models ← gets (λ w. w.models)
    rows ← gets (λ w. w.versions)
    or_raise version_not_found (version_row project_id id models rows)

  -- inferenceServiceRepo.GetByID
  unfoldable pub isvc_get_by_id : Uuid → Uuid → M InferenceService
  unfolding isvc_row
  isvc_get_by_id project_id id = do
    wrapping "get inference service by id" (reach_database E)
    rows ← gets (λ w. w.services)
    or_raise inference_service_not_found (isvc_row project_id id rows)

  -- inferenceServiceRepo.Create. The foreign keys to the environment and the model are left out: Create
  -- of the service has looked both up before.
  unfoldable pub isvc_create : InferenceService → M (Unit {0})
  unfolding isvc_clashes
  isvc_create s = do
    wrapping "create inference service" (reach_database E)
    rows ← gets (λ w. w.services)
    raise_if (isvc_clashes s rows) inference_service_name_conflict
    modify (λ w. record w { services = rows ++ s ∷ [] })

  -- inferenceServiceRepo.Update
  unfoldable pub isvc_update : Uuid → InferenceService → M (Unit {0})
  unfolding isvc_row isvc_name_taken
  isvc_update project_id s = do
    wrapping "update inference service" (reach_database E)
    rows ← gets (λ w. w.services)
    row ← or_raise inference_service_not_found (isvc_row project_id s.id rows)
    raise_if (isvc_name_taken s.id row.serving_environment_id s.name rows)
        inference_service_name_conflict
    now ← time_now E
    modify (λ w. record w { services = update_isvcs now project_id s rows })

  -- serveModelRepo.Create
  unfoldable pub serve_model_create : ServeModel → M (Unit {0})
  unfolding serve_model_clashes
  serve_model_create m = wrapping "create serve model" do
    reach_database E
    rows ← gets (λ w. w.serve_models)
    raise_if (serve_model_clashes m rows) unique_violation
    modify (λ w. record w { serve_models = rows ++ m ∷ [] })

  -- serveModelRepo.GetByID
  unfoldable pub serve_model_get_by_id : Uuid → Uuid → M ServeModel
  unfolding serve_model_row
  serve_model_get_by_id project_id id = do
    wrapping "get serve model by id" (reach_database E)
    rows ← gets (λ w. w.serve_models)
    or_raise serve_model_not_found (serve_model_row project_id id rows)

  -- serveModelRepo.Update
  unfoldable pub serve_model_update : Uuid → ServeModel → M (Unit {0})
  unfolding serve_model_row update_serve_models
  serve_model_update project_id m = do
    wrapping "update serve model" (reach_database E)
    rows ← gets (λ w. w.serve_models)
    row ← or_raise serve_model_not_found (serve_model_row project_id m.id rows)
    now ← time_now E
    modify (λ w. record w { serve_models = update_serve_models now project_id m rows })

  -- serveModelRepo.Delete
  unfoldable pub serve_model_delete : Uuid → Uuid → M (Unit {0})
  unfolding serve_model_row
  serve_model_delete project_id id = do
    wrapping "delete serve model" (reach_database E)
    rows ← gets (λ w. w.serve_models)
    row ← or_raise serve_model_not_found (serve_model_row project_id id rows)
    modify λ w. record w {
      serve_models = keep (λ m. not (m.id == id && m.project_id == project_id)) rows;
    }

  -- serveModelRepo.FindByInferenceService
  unfoldable pub serve_models_of : Uuid → Uuid → M (List ServeModel)
  unfolding newest_first
  serve_models_of project_id isvc_id = do
    wrapping "find serve models by inference service" (reach_database E)
    rows ← gets (λ w. w.serve_models)
    pure (
        newest_first
          (keep (λ m. m.inference_service_id == isvc_id && m.project_id == project_id) rows))
