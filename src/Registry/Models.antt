-- ===== src/Registry/Models.antt =====
-- RegisteredModelService of internal/core/services/registered-model.go.
pub mod Deletion
pub mod Changes
pub mod Steps
use model_registry_service.Base.{
  ℕ, String, Bool, true, false, not, Option, none, some, List, [], ◌∷◌, if◌then◌else◌, str_eq, ℤ,
  pos, ltb_ℤ,
}
use model_registry_service.Domain.Result.{invalid_model_name, cannot_delete_model}
use model_registry_service.Domain.Traffic.{Uuid, Time}
use model_registry_service.Domain.Serving.{or_else}
use model_registry_service.Domain.Registry.{RegisteredModel, ModelState}
use model_registry_service.Store.World.{Oracle, M, pure, raise_if, ◌>>=◌, ◌>>◌, new_uuid, time_now}
use model_registry_service.Store.Serving.{model_get_by_id}
use model_registry_service.Store.Registry.{model_create, model_update, model_delete}
use model_registry_service.Registry.Slug.{generate_slug}

-- The arguments of Create that are modelled.
pub record ModelRequest : Type 0 where
  pub project_id : Uuid
  pub name : String
  pub description : String
  pub model_type : String
  pub parent_model_id : Option Uuid

-- The map of Update: none where it has no such key, or nil.
pub record ModelChanges : Type 0 where
  pub name : Option String
  pub description : Option String
  pub model_type : Option String
  pub model_size : Option ℤ
  pub state : Option ModelState
  pub deployment_status : Option String

-- The limit of a list: 20 unless it is positive, and 100 at most.
unfoldable pub list_limit : ℤ → ℤ
list_limit limit =
    let positive = if ltb_ℤ (pos 0) limit then limit else pos 20 in
    if ltb_ℤ (pos 100) positive then pos 100 else positive

-- The model that Create stores.
unfoldable pub new_model : Uuid → Time → ModelRequest → RegisteredModel
new_model id now req = record {
  id = id;
  created_at = now;
  updated_at = now;
  project_id = req.project_id;
  name = req.name;
  slug = generate_slug req.name;
  description = req.description;
  model_type = if str_eq req.model_type "" then "CUSTOMTRAIN" else req.model_type;
  model_size = pos 0;
  state = ModelState.live;
  deployment_status = "UNDEPLOYED";
  version_count = 0;
  latest_version = none;
  default_version = none;
  parent_model_id = req.parent_model_id;
}

unfoldable pub change_model : ModelChanges → RegisteredModel → RegisteredModel
change_model c m = record m {
  name = or_else c.name m.name;
  description = or_else c.description m.description;
  model_type = or_else c.model_type m.model_type;
  model_size = or_else c.model_size m.model_size;
  state = or_else c.state m.state;
  deployment_status = or_else c.deployment_status m.deployment_status;
}

abbrev pub is_archived : ModelState → Bool
is_archived ModelState.archived = true
is_archived _ = false

module _ (E : Oracle) where
  -- Create
  unfoldable pub create_model : ModelRequest → M RegisteredModel
  create_model req = do
    raise_if (str_eq req.name "") invalid_model_name
    now ← time_now E
    id ← new_uuid E
    model_create E (new_model id now req)
    model_get_by_id E req.project_id id

  -- Get
  unfoldable pub get_model : Uuid → Uuid → M RegisteredModel
  get_model project_id id = model_get_by_id E project_id id

  -- Update
  unfoldable pub update_model : Uuid → Uuid → ModelChanges → M RegisteredModel
  update_model project_id id changes = do
    model ← model_get_by_id E project_id id
    model_update E project_id (change_model changes model)
    model_get_by_id E project_id id

  -- Delete
  unfoldable pub delete_model : Uuid → Uuid → M (Unit {0})
  delete_model project_id id = do
    model ← model_get_by_id E project_id id
    raise_if (not (is_archived model.state)) cannot_delete_model
    model_delete E project_id id
