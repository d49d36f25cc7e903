-- ===== src/Examples.antt =====
-- Concrete tables and requests, on which the theorems are applied.
pub mod Canary
pub mod Variants
pub mod Services
pub mod Registry
pub mod Server
pub mod Cluster
pub mod Virtual
pub mod Http
pub mod Serving
use model_registry_service.Base.{
  ℕ, String, ◌≡◌, refl, Bool, true, false, Option, none, some, List, [], ◌∷◌, ℤ, pos, negsuc,
}
use model_registry_service.Domain.Result.{Result, ok, err, panic, message}
use model_registry_service.Domain.Traffic.{Uuid, TrafficVariant, TrafficConfig, VariantStatus}
use model_registry_service.Domain.Serving.{
  InferenceService, InferenceServiceState, ServingEnvironment, ServeModel,
}
use model_registry_service.Domain.Registry.{
  ModelVersion, RegisteredModel, ModelState, VersionStatus,
}
use model_registry_service.Store.World.{Oracle, World, Reply}

-- Everything answers, and the database accepts null texts.
abbrev pub obliging : Oracle
obliging = record {
  uuid = λ k. k;
  now = λ k. k;
  uuid_prefix = λ _. "0000abcd";
  uuid_text = λ _. "0000abcd-0000";
  database_fails = λ _. false;
  kserve_available = true;
  kserve_deploys = λ _. Reply.done (record { external_id = "ext-1"; url = "http://m" });
  kserve_undeploys = λ _. Reply.done tt;
  kserve_status = λ _. Reply.done (record { url = "http://m"; ready = true; error = "" });
  gateway_available = true;
  gateway_answers = λ _. Reply.done tt;
}

abbrev pub variant : Uuid → String → ℕ → VariantStatus → TrafficVariant
variant id name weight status = record {
  id = id;
  created_at = 0;
  updated_at = 0;
  traffic_config_id = 5;
  variant_name = name;
  model_version_id = 30;
  weight = weight;
  kserve_isvc_name = "m";
  kserve_revision = "r1";
  status = status;
}

abbrev pub config : TrafficConfig
config = record {
  id = 5;
  created_at = 0;
  updated_at = 0;
  project_id = 1;
  inference_service_id = 7;
  strategy = "canary";
  ai_gateway_route_name = "traffic-0000abcd";
  status = "active";
  variants = [];
}

abbrev pub environment : ServingEnvironment
environment = record {
  id = 3;
  created_at = 0;
  updated_at = 0;
  project_id = 1;
  name = "prod";
  description = "";
  external_id = "";
}

abbrev pub service : InferenceService
service = record {
  id = 7;
  created_at = 0;
  updated_at = 0;
  project_id = 1;
  name = "m";
  external_id = "ext-1";
  serving_environment_id = 3;
  registered_model_id = 20;
  desired_state = InferenceServiceState.deployed;
  current_state = InferenceServiceState.deployed;
  runtime = "kserve";
  url = "http://m";
  last_error = "";
}

abbrev pub version : ModelVersion
version = record {
  id = 30;
  created_at = 0;
  updated_at = 0;
  registered_model_id = 20;
  name = "v1";
  description = "";
  is_default = true;
  state = ModelState.live;
  status = VersionStatus.ready;
  artifact_type = "model-artifact";
  model_framework = "sklearn";
  model_framework_version = "1.0";
  container_image = "";
  model_catalog_name = "";
  uri = "s3://m";
}

abbrev pub model : RegisteredModel
model = record {
  id = 20;
  created_at = 0;
  updated_at = 0;
  project_id = 1;
  name = "m";
  slug = "m";
  description = "";
  model_type = "CUSTOMTRAIN";
  model_size = pos 0;
  state = ModelState.live;
  deployment_status = "UNDEPLOYED";
  version_count = 0;
  latest_version = none;
  default_version = none;
  parent_model_id = none;
}

abbrev pub world : List TrafficVariant → World
world variants = record {
  configs = config ∷ [];
  variants = variants;
  environments = environment ∷ [];
  services = service ∷ [];
  serve_models = [];
  versions = version ∷ [];
  models = model ∷ [];
  calls = [];
  ticks = 100;
}

abbrev pub with_canary : World
with_canary =
    world (
      variant 10 "stable" 90 VariantStatus.active
      ∷ variant 11 "canary" 10 VariantStatus.active
      ∷ [])

abbrev pub value_of {ℓ} : {A : Type ℓ} → A → Result A → A
value_of a (ok b) = b
value_of a _ = a
