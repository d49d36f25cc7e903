-- ===== src/Http/Traffic/Calls/Refines.antt =====
-- A request does what the call of the service does that it stands for, and nothing else.
use model_registry_service.Base.{
  ℕ, String, ◌≡◌, refl, Bool, true, Option, none, some, Bool-cases, inl, inr,
}
use model_registry_service.Domain.Result.{Result, ok, err, panic, cause, traffic_variant_not_found}
use model_registry_service.Domain.Traffic.{Uuid, TrafficVariant, TrafficConfig, find_variant}
use model_registry_service.Store.World.{Oracle, World}
use model_registry_service.Cluster.Server.{Act, continue, or_raise, ◌>>=◌}
use model_registry_service.Traffic.Route.{get_config}
use model_registry_service.Http.Errors.{status_of, kind}
use model_registry_service.Http.Gin.{
  Gin, Sent, Response, answered, respond, parsed, in_project, bound, map_domain_error,
}
use model_registry_service.Http.Traffic.{
  Shown, one_variant, get_traffic_config, create_traffic_config, delete_traffic_config,
  http_start_canary, http_update_canary_weight, http_promote_canary, http_rollback,
  http_list_variants, http_get_variant, http_add_variant, http_update_variant, http_delete_variant,
  http_bulk_update_weights, http_promote_variant, WeightsBody, bulk, valid_weights,
}
use model_registry_service.Http.Traffic.Calls.{
  HttpRequest, serve_traffic, Operation, perform, operation, success_status, status_for, finished,
  run, also, project, checked, reweighing, at_config,
}

-- The response and the tables after a request that asks for the operation, or for none.
abbrev pub Answers : Oracle → Option Operation → World → Response Shown × World → Type 0
Answers E none w x = (x.0.status ≡ 400) × (x.1 ≡ w)
Answers E (some op) w x =
    (x.0.status ≡ status_for (success_status op) (perform E op w).0) × (x.1 ≡ (perform E op w).1)

answered-status :
    {B : Type 0} (f : B → Response Shown) (n : ℕ)
    → ((b : B) → (f b).status ≡ n)
    → (r : Result B) → (answered f r).status ≡ status_for n (finished r)
unfolding map_domain_error
answered-status f n h (ok b) = h b
answered-status f n h (err e) = refl
answered-status f n h panic = refl

module _ (E : Oracle) where
  Serves : Option Operation → (World → Response Shown × World) → Type 0
  Serves o h = (w : World) → Answers E o w (h w)

  parsed-Serves :
      (r : Response Shown) (found : Option Uuid) (o : Uuid → Option Operation)
      (k : Uuid → World → Response Shown × World)
      → r.status ≡ 400
      → ((id : Uuid) (w : World) → Answers E (o id) w (k id w))
      → (w : World) → Answers E (also found o) w (parsed r found k w)
  parsed-Serves r none o k bad good w = (bad, refl)
  parsed-Serves r (some id) o k bad good w = good id w

  bound-Serves :
      {B : Type 0} (g : Gin) (valid : B → Bool) (b : Sent B) (o : B → Option Operation)
      (k : B → World → Response Shown × World)
      → ((body : B) → valid body ≡ true → (w : World) → Answers E (o body) w (k body w))
      → (w : World) → Answers E (also (checked valid b) o) w (bound g valid b k w)
  unfolding bound
  bound-Serves g valid (Sent.undecodable message) o k good w = (refl, refl)
  bound-Serves g valid (Sent.decoded body) o k good w = elim (Bool-cases (valid body)) [
    | inl e ↦ rw e (good body e w)
    | inr e ↦ rw e (refl, refl)
  ]

  in_project-Serves :
      (g : Gin) (header : String) (o : Uuid → Option Operation)
      (k : Uuid → World → Response Shown × World)
      → ((p : Uuid) (w : World) → Answers E (o p) w (k p w))
      → (w : World) → Answers E (also (project g header) o) w (in_project g header k w)
  unfolding in_project
  in_project-Serves g header o k good w = parsed-Serves _ (project g header) o k refl good w

  respond-Serves :
      {B : Type 0} (f : B → Response Shown) (m : Act World B) (n : ℕ)
      → ((b : B) → (f b).status ≡ n)
      → (w : World)
      → ((respond f m w).0.status ≡ status_for n (run m w).0) × ((respond f m w).1 ≡ (run m w).1)
  unfolding respond
  respond-Serves f m n h w = (answered-status f n h (m w).0, refl)

  config-Serves :
      (g : Gin) (header id_text : String) (r : Response Shown) (o : Uuid → Uuid → Option Operation)
      (k : Uuid → Uuid → World → Response Shown × World)
      → r.status ≡ 400
      → ((p id : Uuid) (w : World) → Answers E (o p id) w (k p id w))
      → (w : World)
      → Answers E
          (at_config g header id_text o)
          w
          (in_project g header (λ p. parsed r (g.parse_uuid id_text) (k p)) w)
  config-Serves g header id_text r o k bad good =
      in_project-Serves g header _ _
        λ p. parsed-Serves r (g.parse_uuid id_text) (o p) (k p) bad (good p)

  pub one_variant-status :
      (found : Option TrafficVariant) (w : World)
      → ((one_variant found).status
          ≡ status_for 200 (finished (or_raise {S = World} traffic_variant_not_found found w).0))
        × (w ≡ (or_raise {S = World} traffic_variant_not_found found w).1)
  unfolding status_of kind cause
  one_variant-status none w = (refl, refl)
  one_variant-status (some v) w = (refl, refl)

  named-Serves :
      (p id : Uuid) (name : String) (w : World)
      → Answers E
          (some (Operation.read_variant p id name))
          w
          (respond (λ c. one_variant (find_variant name c.variants)) (get_config E p id) w)
  unfolding perform respond ◌>>=◌ map_domain_error
  named-Serves p id name w = go (get_config E p id w).0 (get_config E p id w).1
    where
      go :
          (r : Result TrafficConfig) (w' : World)
          → ((answered (λ (c : TrafficConfig). one_variant (find_variant name c.variants)) r).status
              ≡ status_for 200 (
                  finished
                    (continue r
                      (λ (c : TrafficConfig).
                        or_raise {S = World} traffic_variant_not_found
                          (find_variant name c.variants))
                      w').0))
            × (w'
                ≡ (continue r
                    (λ (c : TrafficConfig).
                      or_raise {S = World} traffic_variant_not_found (find_variant name c.variants))
                    w').1)
      go (ok c) w' = one_variant-status (find_variant name c.variants) w'
      go (err e) w' = (refl, refl)
      go panic w' = (refl, refl)

  weights-Serves :
      (g : Gin) (p id : Uuid) (body : WeightsBody)
      → valid_weights body ≡ true
      → (w : World) → Answers E (reweighing p id body) w (bulk g E p id body w)
  unfolding perform
  weights-Serves g p id none e = cc
  weights-Serves g p id (some ws) e = respond-Serves _ _ 200 λ c. refl

module _ (g : Gin) (E : Oracle) where
  -- Of the requests on configurations but their list: one that is not well formed is refused with 400 and changes nothing. Any other leaves the
  -- tables as the call of the service leaves them that it asks for, and its status is that of a
  -- success exactly if the call succeeds, that of the error if it fails, and 500 if it panics.
  pub serve_traffic-refines :
      (r : HttpRequest) (w : World) → Answers E (operation g r) w (serve_traffic g E r w)
  unfolding serve_traffic operation perform get_traffic_config create_traffic_config
      delete_traffic_config http_start_canary http_update_canary_weight http_promote_canary
      http_rollback http_list_variants http_get_variant http_add_variant http_update_variant
      http_delete_variant http_bulk_update_weights http_promote_variant
  serve_traffic-refines (HttpRequest.show_config h i) =
      config-Serves E g h i _ _ _ refl λ p id. respond-Serves E _ _ 200 λ c. refl
  serve_traffic-refines (HttpRequest.make_config h b) =
      in_project-Serves E g h _ _
        λ p. bound-Serves E g _ b _ _ λ body valid. respond-Serves E _ _ 201 λ c. refl
  serve_traffic-refines (HttpRequest.drop_config h i) =
      config-Serves E g h i _ _ _ refl λ p id. respond-Serves E _ _ 204 λ c. refl
  serve_traffic-refines (HttpRequest.open_canary h i b) =
      config-Serves E g h i _ _ _ refl
        λ p id. bound-Serves E g _ b _ _ λ body valid. respond-Serves E _ _ 200 λ c. refl
  serve_traffic-refines (HttpRequest.weigh_canary h i b) =
      config-Serves E g h i _ _ _ refl
        λ p id. bound-Serves E g _ b _ _ λ body valid. respond-Serves E _ _ 200 λ c. refl
  serve_traffic-refines (HttpRequest.crown_canary h i) =
      config-Serves E g h i _ _ _ refl λ p id. respond-Serves E _ _ 200 λ c. refl
  serve_traffic-refines (HttpRequest.roll_back h i) =
      config-Serves E g h i _ _ _ refl λ p id. respond-Serves E _ _ 200 λ c. refl
  serve_traffic-refines (HttpRequest.show_variants h i) =
      config-Serves E g h i _ _ _ refl λ p id. respond-Serves E _ _ 200 λ c. refl
  serve_traffic-refines (HttpRequest.show_variant h i n) =
      config-Serves E g h i _ _ _ refl λ p id. named-Serves E p id n
  serve_traffic-refines (HttpRequest.add_one h i b) =
      config-Serves E g h i _ _ _ refl
        λ p id. bound-Serves E g _ b _ _ λ body valid. respond-Serves E _ _ 201 λ c. refl
  serve_traffic-refines (HttpRequest.weigh_one h i n b) =
      config-Serves E g h i _ _ _ refl
        λ p id. bound-Serves E g _ b _ _ λ body valid. respond-Serves E _ _ 200 λ c. refl
  serve_traffic-refines (HttpRequest.drop_one h i n) =
      config-Serves E g h i _ _ _ refl λ p id. respond-Serves E _ _ 204 λ c. refl
  serve_traffic-refines (HttpRequest.weigh_all h i b) =
      config-Serves E g h i _ _ _ refl
        λ p id. bound-Serves E g valid_weights b (reweighing p id) _ (weights-Serves E g p id)
  serve_traffic-refines (HttpRequest.crown_one h i n) =
      config-Serves E g h i _ _ _ refl λ p id. respond-Serves E _ _ 200 λ c. refl
