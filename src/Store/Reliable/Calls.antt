-- ===== src/Store/Reliable/Calls.antt =====
-- The statements that succeed over a database that answers.
use model_registry_service.Base.{String, ◌≡◌, refl, ap, some}
use model_registry_service.Domain.Traffic.{Uuid, Time, TrafficVariant, TrafficConfig}
use model_registry_service.Domain.Serving.{InferenceService, ServingEnvironment}
use model_registry_service.Domain.Registry.{RegisteredModel}
use model_registry_service.Store.World.{Oracle, World, tick, reach_database, time_now, wrapping}
use model_registry_service.Store.Silent.{SameTables-trans, At}
use model_registry_service.Store.Hoare.{Hoare, Hoare-bind, Hoare-wrapping, Hoare-pure}
use model_registry_service.Store.Reliable.{Never, Answers, passes, finds, reads, finds_last}
use model_registry_service.Store.Configs.{config_row, config_get_by_id}
use model_registry_service.Store.Variants.{
  rows_of, row_by_id, update_rows, variant_list_by_config, variant_update,
}
use model_registry_service.Store.Variants.Writes.{Fits}
use model_registry_service.Store.Serving.{
  isvc_row, isvc_get_by_id, environment_row, env_get_by_id, model_row, model_get_by_id,
  load_version_meta,
}

module _ (E : Oracle) (up : Answers E) (t : World) where
  pub ticks : Hoare (At t) tick (λ _. At t) Never
  unfolding tick
  ticks = record {
    at = λ w p.
        SameTables-trans
          (record {
            configs = refl;
            variants = refl;
            services = refl;
            serve_models = refl;
            environments = refl;
            versions = refl;
            models = refl;
          })
          p;
  }

  pub reaches : (text : String) → Hoare (At t) (wrapping text (reach_database E)) (λ _. At t) Never
  unfolding reach_database
  reaches text = Hoare-wrapping text (Hoare-bind ticks λ k. passes (E.database_fails k) _ (up k))

  -- A model that is in the table is returned.
  pub model_get_by_id-found :
      (p id : Uuid) (m : RegisteredModel)
      → model_row p id t.models ≡ some m
      → Hoare (At t) (model_get_by_id E p id) (λ r w. At t w × (r.state ≡ m.state)) Never
  unfolding model_get_by_id load_version_meta
  model_get_by_id-found p id m h = Hoare-bind (reaches _) λ _.
      reads _ _ t.models (λ w s. s.models)
        (finds _ _ _ m h (
          reads _ _ t.versions (λ w s. s.versions)
            (Hoare-bind (reaches _) λ _.
              reads _ _ t.versions (λ w s. s.versions)
                (Hoare-bind (reaches _) λ _. Hoare-pure _ (λ w s. (s, refl))))))

  -- A service and an environment that are in their tables are returned.
  pub isvc_get_by_id-found :
      (p id : Uuid) (s : InferenceService)
      → isvc_row p id t.services ≡ some s
      → Hoare (At t) (isvc_get_by_id E p id) (λ r w. At t w × (r ≡ s)) Never
  unfolding isvc_get_by_id
  isvc_get_by_id-found p id s h =
      Hoare-bind (reaches _)
        λ _. reads _ _ t.services (λ w same. same.services) (finds_last _ _ s h)

  pub env_get_by_id-found :
      (p id : Uuid) (e : ServingEnvironment)
      → environment_row p id t.environments ≡ some e
      → Hoare (At t) (env_get_by_id E p id) (λ r w. At t w × (r ≡ e)) Never
  unfolding env_get_by_id
  env_get_by_id-found p id e h =
      Hoare-bind (reaches _)
        λ _. reads _ _ t.environments (λ w same. same.environments) (finds_last _ _ e h)

  pub variant_list_by_config-rows :
      (id : Uuid)
      → Hoare
          (At t)
          (variant_list_by_config E id)
          (λ r w. At t w × (r ≡ rows_of id t.variants))
          Never
  unfolding variant_list_by_config
  variant_list_by_config-rows id =
      Hoare-bind (reaches _) λ _. record { at = λ w same. (same, ap (rows_of id) same.variants) }

  pub config_get_by_id-found :
      (p id : Uuid) (c : TrafficConfig)
      → config_row p id t.configs ≡ some c
      → Hoare (At t) (config_get_by_id E p id) (λ r w. At t w × (r ≡ c)) Never
  unfolding config_get_by_id
  config_get_by_id-found p id c h =
      Hoare-bind (reaches _) λ _. reads _ _ t.configs (λ w same. same.configs) (finds_last _ _ c h)

  pub clock : Hoare (At t) (time_now E) (λ _. At t) Never
  unfolding time_now
  clock = Hoare-bind ticks λ k. Hoare-pure _ (λ w same. same)

  -- A row of a variant that is there and meets the constraints is rewritten.
  pub variant_update-Fits :
      (v row : TrafficVariant)
      → row_by_id v.id t.variants ≡ some row
      → Fits E row.traffic_config_id v t.variants
      → Hoare
          (At t)
          (variant_update E v)
          (λ _ w. (now : Time) × At (record t { variants = update_rows now v t.variants }) w)
          Never
  unfolding variant_update
  variant_update-Fits v row found fits = Hoare-bind (reaches _) λ _.
      reads _ _ t.variants (λ w same. same.variants)
        (finds _ _ _ row found (
          Hoare-bind
            (Hoare-wrapping _ (
              Hoare-bind (passes _ _ fits.texts)
                λ _. Hoare-bind (passes _ _ fits.weight) λ _. passes _ _ fits.name))
            λ _. Hoare-bind clock λ now. record {
              at = λ w same. (
                now,
                record {
                  configs = same.configs;
                  variants = refl;
                  services = same.services;
                  serve_models = same.serve_models;
                  environments = same.environments;
                  versions = same.versions;
                  models = same.models;
                },
              );
            }))
