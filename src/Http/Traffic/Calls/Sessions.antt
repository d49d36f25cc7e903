-- ===== src/Http/Traffic/Calls/Sessions.antt =====
-- A weight of 0 for the canary.
use model_registry_service.Base.{String, ◌≡◌, refl, subst, Option, none, some, pos}
use model_registry_service.Domain.Traffic.{Uuid}
use model_registry_service.Store.World.{Oracle, World}
use model_registry_service.Http.Gin.{Gin, Sent}
use model_registry_service.Http.Traffic.Calls.{
  HttpRequest, serve_traffic, Operation, operation, also, project,
}
use model_registry_service.Http.Traffic.Calls.Refines.{Answers, serve_traffic-refines}

-- Two readings that give nothing in the end.
abbrev nothing : Option Operation
nothing = none

no_operation : (o o' : Option Uuid) → also o (λ p. also o' λ i. nothing) ≡ none
no_operation none o' = refl
no_operation (some p) none = refl
no_operation (some p) (some i) = refl

-- A request for a canary weight of 0 is refused: whatever the header and the identifier, the status
-- is 400 and nothing changes.
pub weigh_canary-zero :
    (g : Gin) (E : Oracle) (header id : String) (w : World)
    → ((serve_traffic g E (HttpRequest.weigh_canary header id (Sent.decoded (pos 0))) w).0.status
        ≡ 400)
      × ((serve_traffic g E (HttpRequest.weigh_canary header id (Sent.decoded (pos 0))) w).1 ≡ w)
unfolding operation
weigh_canary-zero g E header id w =
    subst
      (λ o.
        Answers E o w
          (serve_traffic g E (HttpRequest.weigh_canary header id (Sent.decoded (pos 0))) w))
      (no_operation (project g header) (g.parse_uuid id))
      (serve_traffic-refines g E (HttpRequest.weigh_canary header id (Sent.decoded (pos 0))) w)
