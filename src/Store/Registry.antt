-- ===== src/Store/Registry.antt =====
-- The writes of internal/adapters/secondary/postgres/registered-model-repo.go and
-- model-version-repo.go, under the constraints of migrations/000001 to 000005.
use model_registry_service.Base.{
  String, Bool, false, not, ◌&&◌, ◌||◌, Option, none, some, List, [], ◌∷◌, ◌++◌, ◌==◌,
  if◌then◌else◌, str_eq, keep, map,
}
use model_registry_service.Domain.Result.{
  model_not_found, model_name_conflict, version_not_found, version_name_conflict,
  foreign_key_violation,
}
use model_registry_service.Domain.Traffic.{Uuid, Time, TrafficVariant}
use model_registry_service.Domain.Serving.{InferenceService, ServeModel}
use model_registry_service.Domain.Registry.{ModelVersion, RegisteredModel}
use model_registry_service.Store.World.{
  Oracle, World, M, gets, modify, or_raise, raise_if, ◌>>=◌, ◌>>◌, wrapping, time_now,
  reach_database,
}
use model_registry_service.Store.Serving.{model_row, version_row}

-- uq_registered_model_project_name among the rows under another identifier.
unfoldable pub model_name_taken : Uuid → Uuid → String → List RegisteredModel → Bool
model_name_taken self project_id name [] = false
model_name_taken self project_id name (r ∷ rows) =
    (not (r.id == self) && (r.project_id == project_id && str_eq r.name name))
    || model_name_taken self project_id name rows

-- The primary key.
unfoldable pub has_model : Uuid → List RegisteredModel → Bool
has_model id [] = false
has_model id (r ∷ rows) = r.id == id || has_model id rows

-- fk_registered_model_parent
abbrev pub dangling : Option Uuid → List RegisteredModel → Bool
dangling none rows = false
dangling (some parent) rows = not (has_model parent rows)

abbrev is_parent : Uuid → Option Uuid → Bool
is_parent id none = false
is_parent id (some parent) = parent == id

abbrev pub orphaned : Uuid → RegisteredModel → RegisteredModel
orphaned id m = record m {
  parent_model_id = if is_parent id m.parent_model_id then none else m.parent_model_id;
}

unfoldable pub model_overwrite : Time → RegisteredModel → RegisteredModel → RegisteredModel
model_overwrite now m r = record r {
  name = m.name;
  description = m.description;
  model_type = m.model_type;
  model_size = m.model_size;
  state = m.state;
  deployment_status = m.deployment_status;
  updated_at = now;
}

unfoldable pub update_models :
    Time → Uuid → RegisteredModel → List RegisteredModel → List RegisteredModel
unfolding model_overwrite
update_models now project_id m [] = []
update_models now project_id m (r ∷ rows) =
    (if r.id == m.id && r.project_id == project_id then model_overwrite now m r else r)
    ∷ update_models now project_id m rows

-- What belongs to a model: inference services, and serve models and variants of its versions.
-- They forbid its deletion (ON DELETE RESTRICT).
abbrev is_version_of : Uuid → Uuid → List ModelVersion → Bool
is_version_of id version_id [] = false
is_version_of id version_id (v ∷ vs) =
    (v.id == version_id && v.registered_model_id == id) || is_version_of id version_id vs

has_services : Uuid → List InferenceService → Bool
has_services id [] = false
has_services id (s ∷ ss) = s.registered_model_id == id || has_services id ss

has_serve_models : Uuid → List ModelVersion → List ServeModel → Bool
has_serve_models id vs [] = false
has_serve_models id vs (m ∷ ms) =
    is_version_of id m.model_version_id vs || has_serve_models id vs ms

has_variants : Uuid → List ModelVersion → List TrafficVariant → Bool
has_variants id vs [] = false
has_variants id vs (t ∷ ts) = is_version_of id t.model_version_id vs || has_variants id vs ts

unfoldable pub is_referenced : Uuid → World → Bool
unfolding has_services has_serve_models has_variants
is_referenced id w =
    has_services id w.services
    || has_serve_models id w.versions w.serve_models
    || has_variants id w.versions w.variants

-- uq_model_version_model_name among the rows under another identifier.
version_name_taken : Uuid → Uuid → String → List ModelVersion → Bool
version_name_taken self model_id name [] = false
version_name_taken self model_id name (r ∷ rows) =
    (not (r.id == self) && (r.registered_model_id == model_id && str_eq r.name name))
    || version_name_taken self model_id name rows

has_version : Uuid → List ModelVersion → Bool
has_version id [] = false
has_version id (r ∷ rows) = r.id == id || has_version id rows

version_overwrite : Time → ModelVersion → ModelVersion → ModelVersion
version_overwrite now v r = record r {
  name = v.name;
  description = v.description;
  is_default = v.is_default;
  state = v.state;
  status = v.status;
  artifact_type = v.artifact_type;
  model_framework = v.model_framework;
  model_framework_version = v.model_framework_version;
  container_image = v.container_image;
  uri = v.uri;
  updated_at = now;
}

update_versions : Time → ModelVersion → List ModelVersion → List ModelVersion
unfolding version_overwrite
update_versions now v [] = []
update_versions now v (r ∷ rows) =
    (if r.id == v.id then version_overwrite now v r else r) ∷ update_versions now v rows

module _ (E : Oracle) where
  -- registeredModelRepo.Create
  unfoldable pub model_create : RegisteredModel → M (Unit {0})
  model_create m = do
    wrapping "create registered model" (reach_database E)
    rows ← gets (λ w. w.models)
    raise_if (has_model m.id rows || model_name_taken m.id m.project_id m.name rows)
        model_name_conflict
    wrapping "create registered model"
        (raise_if (dangling m.parent_model_id (rows ++ m ∷ [])) foreign_key_violation)
    modify (λ w. record w { models = rows ++ m ∷ [] })

  -- registeredModelRepo.Update
  unfoldable pub model_update : Uuid → RegisteredModel → M (Unit {0})
  model_update project_id m = do
    wrapping "update registered model" (reach_database E)
    rows ← gets (λ w. w.models)
    row ← or_raise model_not_found (model_row project_id m.id rows)
    raise_if (model_name_taken m.id row.project_id m.name rows) model_name_conflict
    now ← time_now E
    modify (λ w. record w { models = update_models now project_id m rows })

  -- registeredModelRepo.Delete: the versions go with the model (ON DELETE CASCADE), and the models of
  -- which it is the parent lose it (ON DELETE SET NULL).
  unfoldable pub model_delete : Uuid → Uuid → M (Unit {0})
  model_delete project_id id = do
    wrapping "delete registered model" (reach_database E)
    rows ← gets (λ w. w.models)
    row ← or_raise model_not_found (model_row project_id id rows)
    referenced ← gets (is_referenced id)
    wrapping "delete registered model" (raise_if referenced foreign_key_violation)
    versions ← gets (λ w. w.versions)
    modify λ w. record w {
      models = map (orphaned id) (keep (λ m. not (m.id == id && m.project_id == project_id)) rows);
      versions = keep (λ v. not (v.registered_model_id == id)) versions;
    }

  -- modelVersionRepo.Create
  unfoldable pub version_create : ModelVersion → M (Unit {0})
  unfolding version_name_taken has_version
  version_create v = do
    wrapping "create model version" (reach_database E)
    models ← gets (λ w. w.models)
    rows ← gets (λ w. w.versions)
    raise_if (has_version v.id rows || version_name_taken v.id v.registered_model_id v.name rows)
        version_name_conflict
    wrapping "create model version"
        (raise_if (not (has_model v.registered_model_id models)) foreign_key_violation)
    modify (λ w. record w { versions = rows ++ v ∷ [] })

  -- modelVersionRepo.Update
  unfoldable pub version_update : Uuid → ModelVersion → M (Unit {0})
  unfolding version_name_taken update_versions
  version_update project_id v = do
    wrapping "update model version" (reach_database E)
    models ← gets (λ w. w.models)
    rows ← gets (λ w. w.versions)
    row ← or_raise version_not_found (version_row project_id v.id models rows)
    raise_if (version_name_taken v.id row.registered_model_id v.name rows) version_name_conflict
    now ← time_now E
    modify (λ w. record w { versions = update_versions now v rows })
