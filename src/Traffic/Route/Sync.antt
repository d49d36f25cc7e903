-- ===== src/Traffic/Route/Sync.antt =====
-- What syncAIGatewayRoute sends to the gateway.
use model_registry_service.Base.{
  ℕ, ◌+◌, ◌<◌, String, ◌≡◌, refl, ◌∙◌, ap, Bool, true, false, not, ◌&&◌, Option, none, some, List,
  [], ◌∷◌, ◌++◌, arith, str_eq, All,
}
use model_registry_service.Domain.Result.{Result, ok, err, panic}
use model_registry_service.Domain.Traffic.{TrafficVariant, TrafficConfig, sum_active}
use model_registry_service.Domain.Serving.{InferenceService}
use model_registry_service.Store.World.{
  Oracle, World, M, Call, WeightedBackend, from_reply, ◌>>=◌, tick, log_call,
}
use model_registry_service.Store.Hoare.{
  Post, Hoare, Hoare-bind, Hoare-fact, Hoare-deref, Hoare-if, Hoare-wrapping, keeps,
}
use model_registry_service.Store.Quiet.{
  SameView, SameView-refl, SameView-trans, Quiet, Quiet-attempt, Quiet-reach_database,
  Quiet-isvc_get_by_id, Quiet-env_get_by_id,
}
use model_registry_service.Store.Variants.{rows_of, variant_list_by_config}
use model_registry_service.Store.Variants.Budget.{config_weight, sum_active-rows_of}
use model_registry_service.Traffic.Route.{
  backends_of, gateway_update_weights, sync_in, push_route, sync_ai_gateway_route,
}

pub total_of : List WeightedBackend → ℕ
total_of [] = 0
total_of (b ∷ bs) = b.weight + total_of bs

total_of-backends_of : (vs : List TrafficVariant) → total_of (backends_of vs) ≡ sum_active vs
unfolding total_of backends_of sum_active
total_of-backends_of [] = refl
total_of-backends_of (v ∷ vs) = ground (arith, total_of-backends_of vs)

positive_backends : (vs : List TrafficVariant) → All (λ b. 0 < b.weight) (backends_of vs)
unfolding backends_of
positive_backends [] = tt
positive_backends (v ∷ vs) = ground (arith, positive_backends vs)

-- What a synchronisation of the configuration has sent since the world `t`.
pub data Pushes (E : Oracle) (c : TrafficConfig) (t w : World) : Type 0 where
  nothing : w.calls ≡ t.calls → Pushes E c t w
  pushed :
      (namespace : String) (backends : List WeightedBackend)
      → E.gateway_available ≡ true
      → str_eq c.ai_gateway_route_name "" ≡ false
      → w.calls ≡ t.calls ++ Call.update_weights namespace c.ai_gateway_route_name backends ∷ []
      → All (λ b. 0 < b.weight) backends
      → total_of backends ≡ config_weight c.id t.variants
      → Pushes E c t w

guards : (a b : Bool) → (a && not b) ≡ true → (a ≡ true) × (b ≡ false)
guards a b h = ground arith

module _ (E : Oracle) (c : TrafficConfig) (t : World) where
  abbrev Still : World → Type 0
  Still w = SameView w t

  abbrev Sent : World → Type 0
  Sent w = Pushes E c t w

  weak : (w : World) → Still w → Sent w
  weak w p = nothing p.calls

  quiet-Post : {A : Type 0} (r : Result A) (w : World) → Still w → Post (λ _. Still) Sent (r, w)
  quiet-Post (ok a) w p = p
  quiet-Post (err e) w p = weak w p
  quiet-Post panic w p = weak w p

  quietly : {A : Type 0} {m : M A} → Quiet m → Hoare Still m (λ _. Still) Sent
  quietly {m = m} h = record { at = λ w p. quiet-Post (m w).0 (m w).1 (SameView-trans (h.at w) p) }

  sent-Post : {A : Type 0} (r : Result A) (w : World) → Sent w → Post (λ _. Sent) Sent (r, w)
  sent-Post (ok a) w p = p
  sent-Post (err e) w p = p
  sent-Post panic w p = p

  update_sends :
      E.gateway_available ≡ true
      → str_eq c.ai_gateway_route_name "" ≡ false
      → (namespace : String) (vs : List TrafficVariant) → vs ≡ rows_of c.id t.variants
      → Hoare Still
          (gateway_update_weights E namespace c.ai_gateway_route_name (backends_of vs))
          (λ _. Sent)
          Sent
  unfolding gateway_update_weights log_call tick ◌>>=◌
  update_sends on named namespace vs loaded = record {
    at = λ w p. sent-Post (from_reply (E.gateway_answers w.ticks)) _ (
        pushed namespace (backends_of vs) on named
          (ap
            (λ (l : List Call).
              l ++ Call.update_weights namespace c.ai_gateway_route_name (backends_of vs) ∷ [])
            p.calls)
          (positive_backends vs)
          (total_of-backends_of vs ∙ ap sum_active loaded ∙ sum_active-rows_of c.id t.variants));
  }

  sync_in_sends :
      (on : E.gateway_available ≡ true) (named : str_eq c.ai_gateway_route_name "" ≡ false)
      (vs : List TrafficVariant)
      → vs ≡ rows_of c.id t.variants
      → (o : Option InferenceService) → Hoare Still (sync_in E c vs o) (λ _. Sent) Sent
  unfolding sync_in
  sync_in_sends on named vs loaded none = record { at = weak }
  sync_in_sends on named vs loaded (some isvc) =
      Hoare-bind
        (quietly (Quiet-attempt _ (Quiet-env_get_by_id E c.project_id isvc.serving_environment_id)))
        λ found. Hoare-deref weak found λ env _. update_sends on named _ vs loaded

  push_route_sends :
      E.gateway_available ≡ true
      → str_eq c.ai_gateway_route_name "" ≡ false
      → Hoare Still (push_route E c) (λ _. Sent) Sent
  unfolding push_route variant_list_by_config
  push_route_sends on named =
      Hoare-bind
        (Hoare-bind (Hoare-wrapping _ (quietly (Quiet-reach_database E)))
          λ _. record { at = λ w p. (p, ap (rows_of c.id) p.variants) })
        λ vs. Hoare-fact λ loaded.
          Hoare-bind
            (quietly (Quiet-attempt _ (Quiet-isvc_get_by_id E c.project_id c.inference_service_id)))
            λ isvc. sync_in_sends on named vs loaded isvc

  sync_sends : Hoare Still (sync_ai_gateway_route E c) (λ _. Sent) Sent
  unfolding sync_ai_gateway_route
  sync_sends =
      Hoare-if weak _
        (λ open_gate. let (on, named) = guards _ _ open_gate in push_route_sends on named)
        (λ _. record { at = weak })

-- A synchronisation sends nothing, or exactly one update: only with the gateway available and a
-- route recorded, to that route, with backends of positive weight whose weights add up to what the
-- active variants of the configuration carry in the table, whatever variants the configuration
-- passed in still holds.
pub sync_ai_gateway_route_sends :
    (E : Oracle) (config : TrafficConfig) (w : World)
    → Pushes E config w (sync_ai_gateway_route E config w).1
sync_ai_gateway_route_sends E c w = keeps (sync_sends E c w) w (SameView-refl w)
