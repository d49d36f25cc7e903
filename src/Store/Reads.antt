-- ===== src/Store/Reads.antt =====
-- The queries of the repositories write no table.
use model_registry_service.Domain.Traffic.{Uuid}
use model_registry_service.Domain.Registry.{RegisteredModel}
use model_registry_service.Store.World.{Oracle}
use model_registry_service.Store.Silent.{Silent, silent_rules}
use model_registry_service.Store.Variants.{variant_list_by_config}
use model_registry_service.Store.Configs.{config_get_by_id, config_get_by_isvc}
use model_registry_service.Store.Serving.{
  env_get_by_id, load_version_meta, model_get_by_id, version_get_by_id, isvc_get_by_id,
  serve_model_get_by_id, serve_models_of,
}

module _ (E : Oracle) where
  pub Silent-variant_list_by_config : (id : Uuid) → Silent (variant_list_by_config E id)
  unfolding variant_list_by_config
  Silent-variant_list_by_config id = search silent_rules

  pub Silent-config_get_by_id : (p id : Uuid) → Silent (config_get_by_id E p id)
  unfolding config_get_by_id
  Silent-config_get_by_id p id = search silent_rules

  pub Silent-config_get_by_isvc : (p id : Uuid) → Silent (config_get_by_isvc E p id)
  unfolding config_get_by_isvc
  Silent-config_get_by_isvc p id = search silent_rules

  pub Silent-env_get_by_id : (p id : Uuid) → Silent (env_get_by_id E p id)
  unfolding env_get_by_id
  Silent-env_get_by_id p id = search silent_rules

  Silent-load_version_meta : (m : RegisteredModel) → Silent (load_version_meta E m)
  unfolding load_version_meta
  Silent-load_version_meta m = search silent_rules

  pub Silent-model_get_by_id : (p id : Uuid) → Silent (model_get_by_id E p id)
  unfolding model_get_by_id
  Silent-model_get_by_id p id = search (silent_rules, Silent-load_version_meta)

  pub Silent-version_get_by_id : (p id : Uuid) → Silent (version_get_by_id E p id)
  unfolding version_get_by_id
  Silent-version_get_by_id p id = search silent_rules

  pub Silent-isvc_get_by_id : (p id : Uuid) → Silent (isvc_get_by_id E p id)
  unfolding isvc_get_by_id
  Silent-isvc_get_by_id p id = search silent_rules

  pub Silent-serve_model_get_by_id : (p id : Uuid) → Silent (serve_model_get_by_id E p id)
  unfolding serve_model_get_by_id
  Silent-serve_model_get_by_id p id = search silent_rules

  pub Silent-serve_models_of : (p id : Uuid) → Silent (serve_models_of E p id)
  unfolding serve_models_of
  Silent-serve_models_of p id = search silent_rules

pub ruleset read_rules = (
  silent_rules, Silent-variant_list_by_config, Silent-config_get_by_id, Silent-config_get_by_isvc,
  Silent-env_get_by_id, Silent-model_get_by_id, Silent-version_get_by_id, Silent-isvc_get_by_id,
  Silent-serve_model_get_by_id, Silent-serve_models_of,
)
