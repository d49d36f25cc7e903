-- ===== src/Domain/Registry.antt =====
-- internal/core/domain/registered-model.go and model-version.go: registered models and their
-- versions. Owners, authors, keys, tags, labels and container images that have no columns
-- of their own in what is modelled are left out: the services copy them and decide nothing by them.
use model_registry_service.Base.{ℕ, String, Option, Bool, ℤ}
use model_registry_service.Domain.Traffic.{Uuid, Time}

-- A Go string; requests may store another text than the constants.
pub data ModelState : Type 0 where
  live archived : ModelState
  other : String → ModelState

-- A Go string as well.
pub data VersionStatus : Type 0 where
  pending ready failed : VersionStatus
  other : String → VersionStatus

pub record ModelVersion : Type 0 where
  pub id : Uuid
  pub created_at : Time
  pub updated_at : Time
  pub registered_model_id : Uuid
  pub name : String
  pub description : String
  pub is_default : Bool
  pub state : ModelState
  pub status : VersionStatus
  pub artifact_type : String
  pub model_framework : String
  pub model_framework_version : String
  pub container_image : String
  pub model_catalog_name : String
  pub uri : String

pub record RegisteredModel : Type 0 where
  pub id : Uuid
  pub created_at : Time
  pub updated_at : Time
  pub project_id : Uuid
  pub name : String
  pub slug : String
  pub description : String
  pub model_type : String
  pub model_size : ℤ
  pub state : ModelState
  pub deployment_status : String
  pub parent_model_id : Option Uuid
  -- Filled in by the repository, no columns of the table.
  pub version_count : ℕ
  pub latest_version : Option ModelVersion
  pub default_version : Option ModelVersion
