-- ===== src/Traffic/Route/Calm.antt =====
-- GetConfig and syncAIGatewayRoute over a database that answers.
use model_registry_service.Base.{◌≡◌, subst, ◌∙◌, ap, not, ◌&&◌, Option, none, some, List, str_eq}
use model_registry_service.Domain.Traffic.{Uuid, TrafficVariant, TrafficConfig}
use model_registry_service.Domain.Serving.{InferenceService, ServingEnvironment}
use model_registry_service.Store.World.{
  ◌>>◌, Oracle, World, Call, Reply, deref, pure, lift, from_reply, attempt, ignore, log_call,
}
use model_registry_service.Store.Silent.{At}
use model_registry_service.Store.Hoare.{
  Post, Hoare, Hoare-bind, Hoare-fact, Hoare-pure, Hoare-weaken,
}
use model_registry_service.Store.Reliable.{Answers, Never, attempts, Calm-pure, Calm-if, Calm-bind}
use model_registry_service.Store.Reliable.Calls.{
  ticks, config_get_by_id-found, variant_list_by_config-rows, isvc_get_by_id-found,
  env_get_by_id-found,
}
use model_registry_service.Store.Configs.{config_row}
use model_registry_service.Store.Serving.{isvc_row, environment_row}
use model_registry_service.Store.Variants.{rows_of}
use model_registry_service.Traffic.Route.{
  get_config, get_config, gateway_update_weights, sync_in, push_route, sync_ai_gateway_route,
}

-- The row of the configuration, and those of its service and environment, to which the foreign
-- keys lead.
pub record IsPlaced (p id : Uuid) (t : World) : Type 0 where
  pub config : TrafficConfig
  pub service : InferenceService
  pub environment : ServingEnvironment
  pub config_found : config_row p id t.configs ≡ some config
  pub config_id : config.id ≡ id
  pub service_found :
      isvc_row config.project_id config.inference_service_id t.services ≡ some service
  pub environment_found :
      environment_row config.project_id service.serving_environment_id t.environments
      ≡ some environment

module _ (E : Oracle) (up : Answers E) (t : World) (p id : Uuid) (placed : IsPlaced p id t) where
  -- The configuration with the rows of its variants.
  abbrev pub loaded : TrafficConfig
  loaded = record placed.config { variants = rows_of id t.variants }

  pub get_config-loaded : Hoare (At t) (get_config E p id) (λ r w. At t w × (r ≡ loaded)) Never
  unfolding get_config
  get_config-loaded =
      Hoare-bind (config_get_by_id-found E up t p id placed.config placed.config_found) λ c.
        Hoare-fact λ same. Hoare-bind (variant_list_by_config-rows E up t c.id) λ vs.
          Hoare-fact λ rows. Hoare-pure _ λ w s. (
            s,
            ap (λ (x : TrafficConfig). record x { variants = vs }) same
                ∙ ap (λ (l : List TrafficVariant). record placed.config { variants = l })
                    (rows
                      ∙ ap (λ (x : TrafficConfig). rows_of x.id t.variants) same
                      ∙ ap (λ (i : Uuid). rows_of i t.variants) placed.config_id),
          )

module _ (E : Oracle) (up : Answers E) (t : World) (c : TrafficConfig) (service : InferenceService)
    (environment : ServingEnvironment)
    (service_found : isvc_row c.project_id c.inference_service_id t.services ≡ some service)
    (environment_found : environment_row c.project_id service.serving_environment_id t.environments
      ≡ some environment) where
  calm_reply :
      {P : World → Type 0} (r : Reply (Unit {0}))
      → Hoare P (attempt (lift (from_reply r))) (λ _. P) Never
  unfolding attempt
  calm_reply (Reply.done a) = record { at = λ w p. p }
  calm_reply (Reply.refused e) = record { at = λ w p. p }

  logs : (call : Call) → Hoare (At t) (log_call call) (λ _. At t) Never
  unfolding log_call
  logs call = record {
    at = λ w s. record {
      configs = s.configs;
      variants = s.variants;
      services = s.services;
      serve_models = s.serve_models;
      environments = s.environments;
      versions = s.versions;
      models = s.models;
    };
  }

  -- What `attempts` says of a pointer.
  abbrev Points : {A : Type 0} → Option A → A → World → Type 0
  Points {A} o a w = (x : A) × (o ≡ some x) × (At t w × (x ≡ a))

  deref-Points :
      {A : Type 0} (o : Option A) (a : A) → Hoare (Points o a) (deref o) (λ _. At t) Never
  deref-Points none a = record { at = λ w (x, e, s). cc }
  deref-Points (some b) a = record { at = λ w (x, e, s). s.0 }

  calm_in :
      (vs : List TrafficVariant)
      → Hoare (At t) (attempt (sync_in E c vs (some service))) (λ _. At t) Never
  unfolding sync_in gateway_update_weights
  calm_in vs =
      Calm-bind _
        (attempts (
          env_get_by_id-found E up t c.project_id service.serving_environment_id environment
            environment_found))
        λ found. Calm-bind _ (deref-Points found environment) λ env.
          Calm-bind _ (logs _) λ _. Calm-bind _ (ticks E up t) λ k. calm_reply (E.gateway_answers k)

  calm-At :
      (vs : List TrafficVariant) (o : Option InferenceService)
      → Hoare (Points o service) (attempt (sync_in E c vs o)) (λ _. At t) Never
  calm-At vs none = record { at = λ w (x, e, s). cc }
  calm-At vs (some b) = record {
    at = λ w (x, e, s).
        let same : service ≡ b = cc (e, s.1) in
        subst
          (λ (y : InferenceService). Post (λ _. At t) Never (attempt (sync_in E c vs (some y)) w))
          same ((calm_in vs).at w s.0);
  }

  calm_push : Hoare (At t) (attempt (push_route E c)) (λ _. At t) Never
  unfolding push_route
  calm_push = Calm-bind _ (variant_list_by_config-rows E up t c.id) λ vs. Hoare-fact λ rows.
      Calm-bind _
        (attempts
          (isvc_get_by_id-found E up t c.project_id c.inference_service_id service service_found))
        λ o. calm-At vs o

  -- The synchronisation may fail in the cluster, but it neither panics nor changes a table.
  pub sync_ai_gateway_route-calm :
      Hoare (At t) (ignore (sync_ai_gateway_route E c)) (λ _. At t) Never
  unfolding sync_ai_gateway_route ignore
  sync_ai_gateway_route-calm =
      Hoare-bind
        (Calm-if (E.gateway_available && not (str_eq c.ai_gateway_route_name "")) (push_route E c)
          (pure tt) calm_push (Calm-pure tt (λ w s. s)))
        λ _. Hoare-pure _ (λ w s. s)

module _ (E : Oracle) (up : Answers E) (t : World) (p id : Uuid) (placed : IsPlaced p id t) where
  -- The synchronisation and the last query, whatever the variants are now.
  pub afterwards :
      (c : TrafficConfig)
      → c ≡ loaded E up t p id placed
      → (now_rows : List TrafficVariant)
      → Hoare
          (At (record t { variants = now_rows }))
          (ignore (sync_ai_gateway_route E c) >> get_config E p id)
          (λ _. At (record t { variants = now_rows }))
          Never
  afterwards c same now_rows =
      let t' : World = record t { variants = now_rows } in
      Hoare-bind
        (sync_ai_gateway_route-calm E up t' c placed.service placed.environment
          (ap (λ (x : TrafficConfig). isvc_row x.project_id x.inference_service_id t.services) same
            ∙ placed.service_found)
          (ap
              (λ (x : TrafficConfig).
                environment_row x.project_id placed.service.serving_environment_id t.environments)
              same
            ∙ placed.environment_found))
        λ _.
          Hoare-weaken (λ w s. s) (λ _ w s. s.0) (λ w e. e)
            (get_config-loaded E up t' p id (record {
              config = placed.config;
              service = placed.service;
              environment = placed.environment;
              config_found = placed.config_found;
              config_id = placed.config_id;
              service_found = placed.service_found;
              environment_found = placed.environment_found;
            }))
