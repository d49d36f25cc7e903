-- ===== src/Traffic/Canary/Silent.antt =====
-- Deploying a variant's service writes no table.
use model_registry_service.Base.{String, Option}
use model_registry_service.Domain.Traffic.{Uuid}
use model_registry_service.Domain.Serving.{InferenceService, ServingEnvironment}
use model_registry_service.Domain.Registry.{ModelVersion}
use model_registry_service.Store.World.{Oracle}
use model_registry_service.Store.Silent.{Silent}
use model_registry_service.Store.Reads.{read_rules}
use model_registry_service.Traffic.Route.Silent.{Silent-kserve_deploy, Silent-variant_service}
use model_registry_service.Traffic.Canary.{run_deployment, deploy_variant}

module _ (E : Oracle) (text : String) (p : Uuid) (isvc : InferenceService)
    (found : Option ServingEnvironment) (name : String) (version : ModelVersion) where
  Silent-run_deployment : Silent (run_deployment E text p isvc found name version)
  unfolding run_deployment
  Silent-run_deployment = search (read_rules, Silent-kserve_deploy, Silent-variant_service)

  pub Silent-deploy_variant : Silent (deploy_variant E text p isvc found name version)
  unfolding deploy_variant
  Silent-deploy_variant = search (read_rules, Silent-run_deployment)
