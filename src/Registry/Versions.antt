-- ===== src/Registry/Versions.antt =====
-- ModelVersionService and ModelArtifactService of internal/core/services/model-version.go and
-- model-artifact.go, which store versions in one table.
use model_registry_service.Base.{String, Bool, false, Option, none, if◌then◌else◌, str_eq}
use model_registry_service.Domain.Traffic.{Uuid, Time}
use model_registry_service.Domain.Serving.{or_else}
use model_registry_service.Domain.Registry.{ModelVersion, ModelState, VersionStatus}
use model_registry_service.Store.World.{Oracle, M, ◌>>=◌, ◌>>◌, new_uuid, time_now}
use model_registry_service.Store.Serving.{model_get_by_id, version_get_by_id}
use model_registry_service.Store.Registry.{version_create, version_update}

-- The arguments of Create that are modelled. An artifact is never a default version and has no
-- catalogue name.
pub record VersionRequest : Type 0 where
  pub project_id : Uuid
  pub model_id : Uuid
  pub name : String
  pub description : String
  pub is_default : Bool
  pub artifact_type : String
  pub framework : String
  pub framework_version : String
  pub container_image : String
  pub catalog_name : String
  pub uri : String

-- The map of Update: none where it has no such key, or nil.
pub record VersionChanges : Type 0 where
  pub name : Option String
  pub description : Option String
  pub is_default : Option Bool
  pub state : Option ModelState
  pub status : Option VersionStatus
  pub artifact_type : Option String
  pub model_framework : Option String
  pub model_framework_version : Option String
  pub container_image : Option String
  pub uri : Option String

-- The version that Create stores.
unfoldable pub new_version : Uuid → Time → VersionRequest → ModelVersion
new_version id now req = record {
  id = id;
  created_at = now;
  updated_at = now;
  registered_model_id = req.model_id;
  name = req.name;
  description = req.description;
  is_default = req.is_default;
  state = ModelState.live;
  status = VersionStatus.pending;
  artifact_type = if str_eq req.artifact_type "" then "model-artifact" else req.artifact_type;
  model_framework = req.framework;
  model_framework_version = req.framework_version;
  container_image = req.container_image;
  model_catalog_name = req.catalog_name;
  uri = req.uri;
}

unfoldable pub change_version : VersionChanges → ModelVersion → ModelVersion
change_version c v = record v {
  name = or_else c.name v.name;
  description = or_else c.description v.description;
  is_default = or_else c.is_default v.is_default;
  state = or_else c.state v.state;
  status = or_else c.status v.status;
  artifact_type = or_else c.artifact_type v.artifact_type;
  model_framework = or_else c.model_framework v.model_framework;
  model_framework_version = or_else c.model_framework_version v.model_framework_version;
  container_image = or_else c.container_image v.container_image;
  uri = or_else c.uri v.uri;
}

-- The keys that the Update of an artifact reads.
unfoldable pub artifact_changes : VersionChanges → VersionChanges
artifact_changes c = record c {
  name = none;
  description = none;
  is_default = none;
  state = none;
  status = none;
}

module _ (E : Oracle) where
  -- Create of ModelVersionService
  unfoldable pub create_version : VersionRequest → M ModelVersion
  create_version req = do
    model ← model_get_by_id E req.project_id req.model_id
    now ← time_now E
    id ← new_uuid E
    version_create E (new_version id now req)
    version_get_by_id E req.project_id id

  -- Update of ModelVersionService
  unfoldable pub update_version : Uuid → Uuid → VersionChanges → M ModelVersion
  update_version project_id id changes = do
    version ← version_get_by_id E project_id id
    version_update E project_id (change_version changes version)
    version_get_by_id E project_id id

  -- Create of ModelArtifactService
  unfoldable pub create_artifact : VersionRequest → M ModelVersion
  create_artifact req = create_version (record req { is_default = false; catalog_name = "" })

  -- Update of ModelArtifactService
  unfoldable pub update_artifact : Uuid → Uuid → VersionChanges → M ModelVersion
  update_artifact project_id id changes = update_version project_id id (artifact_changes changes)
