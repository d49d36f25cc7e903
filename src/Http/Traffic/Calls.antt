-- ===== src/Http/Traffic/Calls.antt =====
-- The requests on traffic configurations of RegisterRoutes, but their list (GET /traffic_configs), and
-- the calls of the service that they stand for.
pub mod Refines
pub mod Sessions
use model_registry_service.Base.{
  ℕ, String, Bool, true, false, Option, none, some, List, [], ◌∷◌, if◌then◌else◌, str_eq, ℤ,
}
use model_registry_service.Domain.Result.{Result, ok, err, panic, traffic_variant_not_found}
use model_registry_service.Domain.Traffic.{Uuid, find_variant}
use model_registry_service.Store.World.{Oracle, World}
use model_registry_service.Cluster.Server.{Act, drop, or_raise, ◌>>=◌}
use model_registry_service.Traffic.Route.{get_config}
use model_registry_service.Traffic.Configs.{
  CreateTrafficConfigRequest, create_config, delete_config,
}
use model_registry_service.Traffic.Canary.{
  StartCanaryRequest, start_canary, update_canary_weight, promote_canary, rollback,
}
use model_registry_service.Traffic.Variants.{
  AddVariantRequest, BulkUpdateWeightsRequest, add_variant, update_variant, delete_variant,
  bulk_update_weights, promote_variant,
}
use model_registry_service.Http.Errors.{status_of}
use model_registry_service.Http.Gin.{Gin, Sent, Response, percentage}
use model_registry_service.Http.Traffic.{
  CreateConfigBody, StartCanaryBody, AddVariantBody, WeightsBody, Shown, valid_config, valid_canary,
  valid_canary_weight, valid_variant, valid_weights, strategy_or, get_traffic_config,
  create_traffic_config, delete_traffic_config, http_start_canary, http_update_canary_weight,
  http_promote_canary, http_rollback, http_list_variants, http_get_variant, http_add_variant,
  http_update_variant, http_delete_variant, http_bulk_update_weights, http_promote_variant,
}

-- A request other than the list: the header Project-ID, the parameters of the path, and the body.
pub data HttpRequest : Type 0 where
  show_config : String → String → HttpRequest
  make_config : String → Sent CreateConfigBody → HttpRequest
  drop_config : String → String → HttpRequest
  open_canary : String → String → Sent StartCanaryBody → HttpRequest
  weigh_canary : String → String → Sent ℤ → HttpRequest
  crown_canary : String → String → HttpRequest
  roll_back : String → String → HttpRequest
  show_variants : String → String → HttpRequest
  show_variant : String → String → String → HttpRequest
  add_one : String → String → Sent AddVariantBody → HttpRequest
  weigh_one : String → String → String → Sent ℤ → HttpRequest
  drop_one : String → String → String → HttpRequest
  weigh_all : String → String → Sent WeightsBody → HttpRequest
  crown_one : String → String → String → HttpRequest

-- RegisterRoutes
unfoldable pub serve_traffic : Gin → Oracle → HttpRequest → World → Response Shown × World
serve_traffic g E (show_config h i) = get_traffic_config g E h i
serve_traffic g E (make_config h b) = create_traffic_config g E h b
serve_traffic g E (drop_config h i) = delete_traffic_config g E h i
serve_traffic g E (open_canary h i b) = http_start_canary g E h i b
serve_traffic g E (weigh_canary h i b) = http_update_canary_weight g E h i b
serve_traffic g E (crown_canary h i) = http_promote_canary g E h i
serve_traffic g E (roll_back h i) = http_rollback g E h i
serve_traffic g E (show_variants h i) = http_list_variants g E h i
serve_traffic g E (show_variant h i n) = http_get_variant g E h i n
serve_traffic g E (add_one h i b) = http_add_variant g E h i b
serve_traffic g E (weigh_one h i n b) = http_update_variant g E h i n b
serve_traffic g E (drop_one h i n) = http_delete_variant g E h i n
serve_traffic g E (weigh_all h i b) = http_bulk_update_weights g E h i b
serve_traffic g E (crown_one h i n) = http_promote_variant g E h i n

-- The calls of the service, with what a well-formed request says.
pub data Operation : Type 0 where
  read_config : Uuid → Uuid → Operation
  create : CreateTrafficConfigRequest → Operation
  delete : Uuid → Uuid → Operation
  start : StartCanaryRequest → Operation
  weigh : Uuid → Uuid → ℤ → Operation
  promote : Uuid → Uuid → Operation
  undo : Uuid → Uuid → Operation
  read_variant : Uuid → Uuid → String → Operation
  add : AddVariantRequest → Operation
  update : Uuid → Uuid → String → ℤ → Operation
  remove : Uuid → Uuid → String → Operation
  reweigh : BulkUpdateWeightsRequest → Operation
  promote_named : Uuid → Uuid → String → Operation

-- A result without its value.
abbrev pub finished : {A : Type 0} → Result A → Result (Unit {0})
finished (ok a) = ok tt
finished (err e) = err e
finished panic = panic

abbrev pub run : {A : Type 0} → Act World A → World → Result (Unit {0}) × World
run m w = let (r, w') = m w in (finished r, w')

unfoldable pub perform : Oracle → Operation → World → Result (Unit {0}) × World
perform E (Operation.read_config p i) = run (get_config E p i)
perform E (Operation.create req) = run (create_config E req)
perform E (Operation.delete p i) = run (delete_config E p i)
perform E (Operation.start req) = run (start_canary E req)
perform E (Operation.weigh p i weight) = run (update_canary_weight E p i weight)
perform E (Operation.promote p i) = run (promote_canary E p i)
perform E (Operation.undo p i) = run (rollback E p i)
perform E (Operation.read_variant p i name) =
    run
      (get_config E p i >>= λ c. or_raise traffic_variant_not_found (find_variant name c.variants))
perform E (Operation.add req) = run (add_variant E req)
perform E (Operation.update p i name weight) = run (update_variant E p i name weight)
perform E (Operation.remove p i name) = run (delete_variant E p i name)
perform E (Operation.reweigh req) = run (bulk_update_weights E req)
perform E (Operation.promote_named p i name) = run (promote_variant E p i name)

-- The status of a call that succeeds.
abbrev pub success_status : Operation → ℕ
success_status (Operation.create req) = 201
success_status (Operation.add req) = 201
success_status (Operation.delete p i) = 204
success_status (Operation.remove p i name) = 204
success_status _ = 200

abbrev pub status_for : ℕ → Result (Unit {0}) → ℕ
status_for n (ok _) = n
status_for n (err e) = status_of e
status_for n panic = 500

-- The reading of a request.
abbrev pub also : {A B : Type 0} → Option A → (A → Option B) → Option B
also none f = none
also (some a) f = f a

abbrev pub project : Gin → String → Option Uuid
project g header = if str_eq header "" then none else g.parse_uuid header

abbrev pub checked : {A : Type 0} → (A → Bool) → Sent A → Option A
checked valid (Sent.undecodable message) = none
checked valid (Sent.decoded a) = if valid a then some a else none

abbrev pub at_config : Gin → String → String → (Uuid → Uuid → Option Operation) → Option Operation
at_config g h i k = also (project g h) λ p. also (g.parse_uuid i) (k p)

abbrev pub reweighing : Uuid → Uuid → WeightsBody → Option Operation
reweighing p i none = none
reweighing p i (some ws) =
    some
      (Operation.reweigh (record { project_id = p; config_id = i; weights = ws.0; updates = ws.1 }))

-- The operation that a request asks for, if it is well formed.
unfoldable pub operation : Gin → HttpRequest → Option Operation
operation g (HttpRequest.show_config h i) =
    at_config g h i λ p id. some (Operation.read_config p id)
operation g (HttpRequest.make_config h b) = also (project g h) λ p.
    also (checked valid_config b) λ body. some (
      Operation.create (record {
        project_id = p;
        inference_service_id = body.inference_service_id;
        strategy = strategy_or body.strategy;
        stable_version_id = body.stable_version_id;
      }))
operation g (HttpRequest.drop_config h i) = at_config g h i λ p id. some (Operation.delete p id)
operation g (HttpRequest.open_canary h i b) = at_config g h i λ p id.
    also (checked valid_canary b) λ body. some (
      Operation.start (record {
        project_id = p;
        config_id = id;
        model_version_id = body.model_version_id;
        initial_weight = body.initial_weight;
      }))
operation g (HttpRequest.weigh_canary h i b) =
    at_config g h i
      λ p id. also (checked valid_canary_weight b) λ weight. some (Operation.weigh p id weight)
operation g (HttpRequest.crown_canary h i) = at_config g h i λ p id. some (Operation.promote p id)
operation g (HttpRequest.roll_back h i) = at_config g h i λ p id. some (Operation.undo p id)
operation g (HttpRequest.show_variants h i) =
    at_config g h i λ p id. some (Operation.read_config p id)
operation g (HttpRequest.show_variant h i n) =
    at_config g h i λ p id. some (Operation.read_variant p id n)
operation g (HttpRequest.add_one h i b) = at_config g h i λ p id.
    also (checked valid_variant b) λ body. some (
      Operation.add (record {
        project_id = p;
        config_id = id;
        variant_name = body.variant_name;
        model_version_id = body.model_version_id;
        weight = body.weight;
      }))
operation g (HttpRequest.weigh_one h i n b) =
    at_config g h i
      λ p id. also (checked percentage b) λ weight. some (Operation.update p id n weight)
operation g (HttpRequest.drop_one h i n) = at_config g h i λ p id. some (Operation.remove p id n)
operation g (HttpRequest.weigh_all h i b) =
    at_config g h i λ p id. also (checked valid_weights b) (reweighing p id)
operation g (HttpRequest.crown_one h i n) =
    at_config g h i λ p id. some (Operation.promote_named p id n)
