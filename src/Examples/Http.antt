-- ===== src/Examples/Http.antt =====
-- HTTP requests on the tables of the other examples.
use model_registry_service.Base.{◌≡◌, none, some, pos, if◌then◌else◌, str_eq, ◌⊎◌, ◌≢◌}
use model_registry_service.Domain.Result.{Error, connection_failure}
use model_registry_service.Http.Errors.{status_of}
use model_registry_service.Http.Errors.Statuses.{
  opaque_response, open_response, map_domain_error-hides,
}
use model_registry_service.Http.Gin.{Gin, Sent, map_domain_error}
use model_registry_service.Http.Traffic.{Shown}
use model_registry_service.Http.Traffic.Calls.{
  HttpRequest, serve_traffic, Operation, perform, operation, status_for,
}
use model_registry_service.Http.Traffic.Calls.Refines.{serve_traffic-refines}
use model_registry_service.Http.Virtual.Calls as Models
use model_registry_service.Http.Virtual.Calls.Refines.{serve_models-refines}
use model_registry_service.Http.Traffic.Calls.Sessions.{weigh_canary-zero}
use model_registry_service.Examples.Server.{accessors, server}
use model_registry_service.Examples.Virtual.{settings, start}
use model_registry_service.Examples.{obliging, with_canary}

abbrev gin : Gin
gin = record {
  parse_uuid = λ s. if str_eq s "1" then some 1 else if str_eq s "5" then some 5 else none;
  refusal = "validation failed";
}

abbrev wrapped_failure : Error
wrapped_failure = Error.wrapped "update traffic_variant" connection_failure

map_domain_error-hides_example :
    ((map_domain_error {A = Shown} wrapped_failure ≡ opaque_response)
      ⊎ ((map_domain_error {A = Shown} wrapped_failure
            ≡ open_response (status_of wrapped_failure) wrapped_failure)
          × (status_of wrapped_failure ≢ 500)))
    × ((map_domain_error {A = Shown} (Error.wrapped "again" wrapped_failure)).status
        ≡ (map_domain_error {A = Shown} wrapped_failure).status)
map_domain_error-hides_example = map_domain_error-hides wrapped_failure "again"

weigh_canary-zero_example :
    ((serve_traffic gin obliging
        (HttpRequest.weigh_canary "1" "5" (Sent.decoded (pos 0)))
        with_canary).0.status
      ≡ 400)
    × ((serve_traffic gin obliging
          (HttpRequest.weigh_canary "1" "5" (Sent.decoded (pos 0)))
          with_canary).1
        ≡ with_canary)
weigh_canary-zero_example = weigh_canary-zero gin obliging "1" "5" with_canary

abbrev roll_back : HttpRequest
roll_back = HttpRequest.roll_back "1" "5"

serve_traffic-refines_example :
    ((serve_traffic gin obliging roll_back with_canary).0.status
      ≡ status_for 200 (perform obliging (Operation.undo 1 5) with_canary).0)
    × ((serve_traffic gin obliging roll_back with_canary).1
        ≡ (perform obliging (Operation.undo 1 5) with_canary).1)
unfolding operation
serve_traffic-refines_example = serve_traffic-refines gin obliging roll_back with_canary

abbrev reweigh : Models.HttpRequest
reweigh =
    Models.HttpRequest.change_one "1" "chat" "5"
      (Sent.decoded (record { weight = pos 60; priority = pos 0 }))

abbrev change : Models.Operation
change = Models.Operation.change 1 "chat" 5 (pos 60) (pos 0)

serve_models-refines_example :
    ((Models.serve_models gin obliging accessors server settings reweigh start).0.status
      ≡ status_for 200 (Models.perform obliging accessors server settings change start).0)
    × ((Models.serve_models gin obliging accessors server settings reweigh start).1
        ≡ (Models.perform obliging accessors server settings change start).1)
unfolding Models.operation
serve_models-refines_example =
    serve_models-refines obliging accessors server settings gin reweigh start
