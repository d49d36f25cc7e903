-- ===== src/Examples/Serving.antt =====
-- Environments and inference services of the other examples.
use model_registry_service.Base.{◌≡◌, refl, false, some, List, [], ◌∷◌}
use model_registry_service.Domain.Serving.{InferenceService, InferenceServiceState, is_deployed}
use model_registry_service.Store.World.{World}
use model_registry_service.Store.Hoare.{Post}
use model_registry_service.Store.Reliable.{Never}
use model_registry_service.Store.Serving.{isvc_row, environment_row}
use model_registry_service.Store.Environments.Links.{has_env, AreLinked}
use model_registry_service.Serving.{delete_service}
use model_registry_service.Serving.Deletion.{IsRemoved, delete_service-IsRemoved}
use model_registry_service.Serving.Sessions.{Request, serve, serve-Linked}
use model_registry_service.Examples.{obliging, service, environment, with_canary}

abbrev idle_service : InferenceService
idle_service = record service { current_state = InferenceServiceState.undeployed }

-- The service is not deployed, but its traffic still has a stable variant and a canary.
abbrev idle : World
idle = record with_canary { services = idle_service ∷ [] }

service_found : isvc_row 1 7 idle.services ≡ some idle_service
unfolding isvc_row
service_found = refl

environment_found : environment_row 1 3 idle.environments ≡ some environment
unfolding environment_row
environment_found = refl

not_deployed : is_deployed idle_service ≡ false
unfolding is_deployed
not_deployed = refl

delete_service-IsRemoved_example :
    Post (λ _. IsRemoved 1 7 idle) Never (delete_service obliging 1 7 idle)
delete_service-IsRemoved_example =
    delete_service-IsRemoved obliging 1 7 idle_service environment idle (λ k. refl) service_found
      environment_found not_deployed

-- An environment that is used is not closed, and one that does not exist takes no service.
abbrev requests : List Request
requests =
    Request.close 1 3
    ∷ Request.found 1 "staging" "" ""
    ∷ Request.serve_model 1 "n" 4 20 ""
    ∷ Request.serve_model 1 "n" 3 20 "triton"
    ∷ Request.retire 1 7
    ∷ Request.close 1 3
    ∷ []

idle-AreLinked : AreLinked idle.environments idle.services
unfolding has_env
idle-AreLinked = (refl, tt)

serve-Linked_example :
    AreLinked (serve obliging requests idle).environments (serve obliging requests idle).services
serve-Linked_example = serve-Linked obliging requests idle idle-AreLinked
