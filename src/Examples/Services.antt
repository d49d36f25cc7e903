-- ===== src/Examples/Services.antt =====
-- A deployment, its removal and the life of a service, and the theorems about them.
use model_registry_service.Base.{◌≡◌, refl, List, [], ◌∷◌}
use model_registry_service.Domain.Result.{ok}
use model_registry_service.Domain.Traffic.{Time}
use model_registry_service.Domain.Serving.{
  is_deployed, new_inference_service, new_serve_model, set_external_id,
}
use model_registry_service.Domain.Serving.States.{
  Event, run, HasNoStaleUrl, IsSameService, run-HasNoStaleUrl,
}
use model_registry_service.Store.World.{
  ◌>>=◌, wrapping, reach_database, new_uuid, time_now, ignore, attempt, log_call, tick,
}
use model_registry_service.Store.Hoare.{Post}
use model_registry_service.Store.Serving.{
  env_get_by_id, model_get_by_id, model_row, load_version_meta, latest_of, default_of,
  version_get_by_id, version_row, isvc_get_by_id, isvc_row, isvc_create, isvc_update,
  isvc_name_taken, update_isvcs, serve_model_create,
}
use model_registry_service.Traffic.Route.{namespace_of, kserve_deploy}
use model_registry_service.Deploy.{
  DeployRequest, DeployResult, get_versions, resolve_versions, check_ready, deployment_name,
  create_serve_models, answer, settle_deployment, run_deployment, deploy, undeploy_service,
}
use model_registry_service.Deploy.Outcome.{IsOutcome, deploy-IsOutcome}
use model_registry_service.Deploy.Undeployment.{IsUndeployed, undeploy_service-IsUndeployed}
use model_registry_service.Examples.{obliging, service, world, value_of}

abbrev deployment : DeployRequest
deployment = record {
  project_id = 1;
  registered_model_id = 20;
  model_version_ids = 30 ∷ [];
  serving_environment_id = 3;
  name = "second";
}

abbrev nothing : DeployResult
nothing = record { inference_service = service; served_models = []; status = ""; message = "" }

abbrev outcome : DeployResult
outcome = value_of nothing (deploy obliging deployment (world [])).0

deployed : (deploy obliging deployment (world [])).0 ≡ ok outcome
unfolding deploy resolve_versions get_versions check_ready deployment_name create_serve_models
    run_deployment settle_deployment answer ◌>>=◌ wrapping reach_database tick new_uuid time_now
    ignore attempt log_call env_get_by_id model_get_by_id model_row load_version_meta latest_of
    default_of version_get_by_id version_row isvc_get_by_id isvc_row isvc_create isvc_update
    isvc_name_taken update_isvcs serve_model_create namespace_of kserve_deploy new_inference_service
    new_serve_model set_external_id
deployed = refl

deploy-IsOutcome_example : IsOutcome deployment (world []) outcome
deploy-IsOutcome_example = deploy-IsOutcome obliging deployment (world []) outcome deployed

undeploy_service-IsUndeployed_example :
    Post
      (λ _ w'. IsUndeployed 1 7 (service ∷ []) w'.services)
      (λ w'. w'.services ≡ service ∷ [])
      (undeploy_service obliging 1 7 (world []))
undeploy_service-IsUndeployed_example = undeploy_service-IsUndeployed obliging 1 7 (world [])

abbrev life : List (Time × Event)
life =
    (1, Event.undeploy_event)
    ∷ (2, Event.mark_undeployed_event)
    ∷ (3, Event.deploy_event)
    ∷ (4, Event.mark_failed_event "no pods")
    ∷ (5, Event.mark_deployed_event "http://m2")
    ∷ []

service-HasNoStaleUrl : HasNoStaleUrl service
unfolding is_deployed
service-HasNoStaleUrl e = cc

run-HasNoStaleUrl_example :
    HasNoStaleUrl (run life service) × IsSameService (run life service) service
run-HasNoStaleUrl_example = run-HasNoStaleUrl life service service-HasNoStaleUrl
