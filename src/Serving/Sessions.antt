-- ===== src/Serving/Sessions.antt =====
-- Requests on environments and inference services, one after the other.
use model_registry_service.Base.{
  String, arith, refl, ◌≡◌, subst, ap, ◌∙◌, true, not, Option, none, some, List, [], ◌∷◌, str_eq,
  ◌&&◌, ltb,
}
use model_registry_service.Domain.Result.{ok, serving_env_not_found}
use model_registry_service.Domain.Traffic.{Uuid, Time}
use model_registry_service.Domain.Serving.{
  ServingEnvironment, InferenceService, is_deployed, new_serving_environment, new_inference_service,
}
use model_registry_service.Store.World.{Oracle, World, M, or_raise, ◌>>=◌}
use model_registry_service.Store.Silent.{
  Silent, Silent-raise_if, Silent-new_uuid, Silent-time_now, Silent-lift, Silent-pure,
  Silent-wrapping, Silent-reach_database, silent_rules,
}
use model_registry_service.Store.Reads.{
  Silent-env_get_by_id, Silent-isvc_get_by_id, Silent-model_get_by_id,
}
use model_registry_service.Store.Hoare.{
  Hoare, Hoare-bind, Hoare-silent, Hoare-if, Hoare-lift, Hoare-weaken, Hoare-or_raise_last, keeps,
}
use model_registry_service.Store.Serving.{environment_row, env_get_by_id}
use model_registry_service.Store.Environments.{count_by_environment}
use model_registry_service.Store.Environments.Links.{
  has_env, AreLinked, Linked, Linked-stable, environment_row-has_env, env_create-Linked,
  env_update-Linked, env_delete-Linked, isvc_create-Linked, isvc_delete-Linked,
}
use model_registry_service.Traffic.Route.Silent.{Silent-kserve_undeploy}
use model_registry_service.Serving.{
  create_environment, change_environment, delete_environment, create_service, delete_service,
  clean_up,
}

pub data Request : Type 0 where
  found : Uuid → String → String → String → Request
  change : Uuid → Uuid → Option String → Option String → Option String → Request
  close : Uuid → Uuid → Request
  serve_model : Uuid → String → Uuid → Uuid → String → Request
  retire : Uuid → Uuid → Request

-- What a request leaves behind, whether it succeeded or failed.
unfoldable pub handle : Oracle → Request → World → World
handle E (Request.found p name description external) w =
    (create_environment E p name description external w).1
handle E (Request.change p id name description external) w =
    (change_environment E p id name description external w).1
handle E (Request.close p id) w = (delete_environment E p id w).1
handle E (Request.serve_model p name env model runtime) w =
    (create_service E p name env model runtime w).1
handle E (Request.retire p id) w = (delete_service E p id w).1

unfoldable pub serve : Oracle → List Request → World → World
unfolding handle
serve E [] w = w
serve E (r ∷ rs) w = serve E rs (handle E r w)

module _ (E : Oracle) where
  silently : {A : Type 0} {m : M A} → Silent m → Hoare Linked m (λ _. Linked) Linked
  silently = Hoare-silent Linked-stable (λ w p. p)

  create_environment-Linked :
      (p : Uuid) (name description external : String)
      → Hoare Linked (create_environment E p name description external) (λ _. Linked) Linked
  unfolding create_environment
  create_environment-Linked p name description external =
      Hoare-bind (silently (Silent-new_uuid E)) λ id.
        Hoare-bind (silently (Silent-time_now E)) λ now.
          Hoare-bind (silently (Silent-lift (new_serving_environment id now p name description)))
            λ env.
              Hoare-bind (env_create-Linked E _) λ _. silently (Silent-env_get_by_id E p env.id)

  change_environment-Linked :
      (p id : Uuid) (name description external : Option String)
      → Hoare Linked (change_environment E p id name description external) (λ _. Linked) Linked
  unfolding change_environment
  change_environment-Linked p id name description external =
      Hoare-bind (silently (Silent-env_get_by_id E p id)) λ env.
        Hoare-bind (silently (Silent-time_now E))
          λ now. Hoare-bind (env_update-Linked E p _) λ _. silently (Silent-env_get_by_id E p id)

  Silent-count : (p id : Uuid) → Silent (count_by_environment E p id)
  unfolding count_by_environment
  Silent-count p id = search silent_rules

  delete_environment-Linked :
      (p id : Uuid) → Hoare Linked (delete_environment E p id) (λ _. Linked) Linked
  unfolding delete_environment
  delete_environment-Linked p id =
      Hoare-bind (silently (Silent-count p id)) λ count.
        Hoare-bind (silently (Silent-raise_if (ltb 0 count) _)) λ _. env_delete-Linked E p id

  -- The environment was found, and is still there.
  abbrev Housed : Uuid → World → Type 0
  Housed id w = Linked w × (has_env id w.environments ≡ true)

  housed :
      (id : Uuid) {A : Type 0} {m : M A} → Silent m → Hoare (Housed id) m (λ _. Housed id) Linked
  housed id =
      Hoare-silent
        (record { at = λ s h. (Linked-stable.at s h.0, ap (has_env id) s.environments ∙ h.1) })
        (λ w h. h.0)

  env_get_by_id-Housed : (p id : Uuid) → Hoare Linked (env_get_by_id E p id) (λ _. Housed id) Linked
  unfolding env_get_by_id ◌>>=◌
  env_get_by_id-Housed p id =
      Hoare-bind (silently (Silent-wrapping _ _ (Silent-reach_database E)))
        λ _. record { at = λ w l. (looked_up w.environments).at w (l, refl) }
    where
      At : List ServingEnvironment → World → Type 0
      At es w = Linked w × (w.environments ≡ es)

      looked_up :
          (es : List ServingEnvironment)
          → Hoare
              (At es)
              (or_raise serving_env_not_found (environment_row p id es))
              (λ _. Housed id)
              Linked
      looked_up es =
          Hoare-weaken (λ w h. h) (λ a w h. (h.0.0, ap (has_env id) h.0.1 ∙ h.1)) (λ w h. h)
            (Hoare-or_raise_last {P = At es} {F = Linked} (λ a. has_env id es ≡ true) (λ w h. h.0) _
              (environment_row p id es) (environment_row-has_env p id es))

  new_inference_service-env :
      (id : Uuid) (now : Time) (p : Uuid) (name : String) (env model : Uuid) (s : InferenceService)
      → new_inference_service id now p name env model ≡ ok s
      → env ≡ s.serving_environment_id
  unfolding new_inference_service
  new_inference_service-env id now p name env model s h = ground arith

  create_service-Linked :
      (p : Uuid) (name : String) (env_id model_id : Uuid) (runtime : String)
      → Hoare Linked (create_service E p name env_id model_id runtime) (λ _. Linked) Linked
  unfolding create_service
  create_service-Linked p name env_id model_id runtime =
      Hoare-bind (env_get_by_id-Housed p env_id) λ env.
        Hoare-bind (housed env_id (Silent-model_get_by_id E p model_id)) λ model.
          Hoare-bind (housed env_id (Silent-new_uuid E)) λ id.
            Hoare-bind (housed env_id (Silent-time_now E)) λ now.
              Hoare-lift (λ w h. h.0) (new_inference_service id now p name env_id model_id)
                λ isvc made.
                  Hoare-bind
                    (record {
                      at = λ w h. (isvc_create-Linked E _).at w (
                        h.0,
                        subst (λ e. has_env e w.environments ≡ true)
                            (new_inference_service-env id now p name env_id model_id isvc made) h.1,
                      );
                    })
                    λ _. silently (Silent-isvc_get_by_id E p isvc.id)

  Silent-clean_up :
      (s : InferenceService) (found : Option ServingEnvironment) → Silent (clean_up E s found)
  unfolding clean_up
  Silent-clean_up s none = Silent-pure tt
  Silent-clean_up s (some env) = search (silent_rules, Silent-kserve_undeploy)

  delete_service-Linked : (p id : Uuid) → Hoare Linked (delete_service E p id) (λ _. Linked) Linked
  unfolding delete_service
  delete_service-Linked p id = Hoare-bind (silently (Silent-isvc_get_by_id E p id)) λ isvc.
      Hoare-bind (silently (Silent-raise_if (is_deployed isvc) _)) λ _.
        Hoare-bind
          (Hoare-if (λ w h. h) (not (str_eq isvc.name "") && E.kserve_available)
            (λ on.
              Hoare-bind (silently (search (silent_rules, Silent-env_get_by_id E)))
                (λ found. silently (Silent-clean_up isvc found)))
            (λ off. silently (Silent-pure tt)))
          λ _. isvc_delete-Linked E p id

  handle-Linked : (r : Request) (w : World) → Linked w → Linked (handle E r w)
  unfolding handle
  handle-Linked (Request.found p name description external) =
      keeps (create_environment-Linked p name description external)
  handle-Linked (Request.change p id name description external) =
      keeps (change_environment-Linked p id name description external)
  handle-Linked (Request.close p id) = keeps (delete_environment-Linked p id)
  handle-Linked (Request.serve_model p name env model runtime) =
      keeps (create_service-Linked p name env model runtime)
  handle-Linked (Request.retire p id) = keeps (delete_service-Linked p id)

  -- From tables in which every inference service has an environment that exists, any requests to
  -- create, change and delete environments and to create and delete inference services, whatever
  -- the database and KServe answer, lead to such tables again.
  pub serve-Linked :
      (rs : List Request) (w : World)
      → AreLinked w.environments w.services
      → AreLinked (serve E rs w).environments (serve E rs w).services
  unfolding serve
  serve-Linked [] w h = h
  serve-Linked (r ∷ rs) w h = serve-Linked rs (handle E r w) (handle-Linked r w h)
