-- ===== src/Serving/Deletion.antt =====
-- What InferenceServiceService.Delete removes.
use model_registry_service.Base.{
  ℕ, String, ◌≡◌, ◌≢◌, refl, sym, ap, ◌∙◌, subst, Bool, true, false, not, ◌&&◌, some, none, List,
  [], ◌∷◌, ◌==◌, keep, arith, All, Bool-cases, inl, inr, str_eq, if◌then◌else◌,
}
use model_registry_service.Domain.Result.{Result, ok, err, panic}
use model_registry_service.Domain.Traffic.{Uuid, TrafficConfig, TrafficVariant}
use model_registry_service.Domain.Serving.{
  InferenceService, ServingEnvironment, ServeModel, is_deployed,
}
use model_registry_service.Store.World.{
  Oracle, World, M, Reply, from_reply, to_option, continue, pure, ◌>>=◌, attempt, ignore, log_call,
  tick,
}
use model_registry_service.Store.Silent.{SameTables-trans, SameTables-refl, At}
use model_registry_service.Store.Hoare.{Post, Hoare, Hoare-bind, Hoare-fact, Hoare-pure}
use model_registry_service.Store.Reliable.{Answers, Never, passes, finds, reads, attempts}
use model_registry_service.Store.Reliable.Calls.{reaches, isvc_get_by_id-found, env_get_by_id-found}
use model_registry_service.Store.Serving.{isvc_row, environment_row, env_get_by_id}
use model_registry_service.Store.Environments.{is_config_of, is_variant_of, isvc_delete}
use model_registry_service.Traffic.Route.{kserve_undeploy}
use model_registry_service.Traffic.Route.Silent.{Silent-kserve_undeploy}
use model_registry_service.Serving.{delete_service, clean_up}

-- Neither the service nor a serve model, a configuration or a variant of it is left, and the other
-- services, serve models, configurations and variants are what they were.
pub record IsRemoved (p id : Uuid) (before after : World) : Type 0 where
  pub service : isvc_row p id after.services ≡ none
  pub serve_models : All (λ m. m.inference_service_id ≢ id) after.serve_models
  pub configs : All (λ c. c.inference_service_id ≢ id) after.configs
  pub variants : All (λ v. is_variant_of id before.configs v ≡ false) after.variants
  pub others :
      (q other : Uuid)
      → other ≢ id
      → isvc_row q other after.services ≡ isvc_row q other before.services
  pub untouched :
      (after.environments ≡ before.environments)
      × (after.versions ≡ before.versions)
      × (after.models ≡ before.models)
  pub kept_models :
      after.serve_models ≡ keep (λ m. not (m.inference_service_id == id)) before.serve_models
  pub kept_configs : after.configs ≡ keep (λ c. not (is_config_of id c)) before.configs
  pub kept_variants :
      after.variants ≡ keep (λ v. not (is_variant_of id before.configs v)) before.variants

others_of : Uuid → Uuid → List InferenceService → List InferenceService
others_of p id rows = keep (λ s. not (s.id == id && s.project_id == p)) rows

isvc_row-gone :
    (p id : Uuid) (rows : List InferenceService) → isvc_row p id (others_of p id rows) ≡ none
unfolding isvc_row others_of
isvc_row-gone p id [] = refl
isvc_row-gone p id (r ∷ rows) = ground (arith, isvc_row-gone p id rows)

isvc_row-others :
    (p id q other : Uuid) (rows : List InferenceService)
    → other ≢ id
    → isvc_row q other (others_of p id rows) ≡ isvc_row q other rows
unfolding isvc_row others_of
isvc_row-others p id q other [] h = refl
isvc_row-others p id q other (r ∷ rows) h = ground (arith, isvc_row-others p id q other rows h)

-- What a filter leaves does not pass the test that it negates.
keep-not :
    {A : Type 0} (test : A → Bool) (xs : List A)
    → All (λ x. test x ≡ false) (keep (λ x. not (test x)) xs)
keep-not test [] = tt
keep-not test (x ∷ xs) = elim (Bool-cases (test x)) [
  | inl e ↦ rw e (keep-not test xs)
  | inr e ↦ rw e (e, keep-not test xs)
]

differ : (a b : ℕ) → (a == b) ≡ false → a ≢ b
differ a b h = ground arith

All-differ :
    {A : Type 0} (key : A → ℕ) (id : ℕ) (xs : List A)
    → All (λ x. (key x == id) ≡ false) xs
    → All (λ x. key x ≢ id) xs
All-differ key id [] h = tt
All-differ key id (x ∷ xs) h = (differ (key x) id h.0, All-differ key id xs h.1)

from_reply-answers : (r : Reply (Unit {0})) → from_reply r ≢ panic
from_reply-answers (Reply.done a) e = cc
from_reply-answers (Reply.refused x) e = cc

kserve_undeploy-answers :
    (E : Oracle) (namespace name : String) (w : World)
    → (kserve_undeploy E namespace name w).0 ≢ panic
unfolding kserve_undeploy ◌>>=◌ log_call tick
kserve_undeploy-answers E namespace name w = from_reply-answers (E.kserve_undeploys w.ticks)

module _ (E : Oracle) (up : Answers E) (t : World) where
  dropped-Post :
      {A : Type 0} (r : Result A) (w : World)
      → r ≢ panic
      → At t w
      → Post (λ _. At t) Never (continue (to_option r) (λ o. pure tt) w)
  dropped-Post (ok a) w h s = s
  dropped-Post (err e) w h s = s
  dropped-Post panic w h s = h refl

  undeploys :
      (namespace name : String)
      → Hoare (At t) (ignore (kserve_undeploy E namespace name)) (λ _. At t) Never
  unfolding ignore attempt ◌>>=◌
  undeploys namespace name = record {
    at = λ w s.
        dropped-Post (kserve_undeploy E namespace name w).0 (kserve_undeploy E namespace name w).1
          (kserve_undeploy-answers E namespace name w)
          (SameTables-trans ((Silent-kserve_undeploy E namespace name).at w) s);
  }

  variants_swept :
      (id : Uuid) (cs cs' : List TrafficConfig) (vs vs' : List TrafficVariant)
      → cs ≡ cs'
      → vs ≡ vs'
      → keep (λ v. not (is_variant_of id cs v)) vs ≡ keep (λ v. not (is_variant_of id cs' v)) vs'
  variants_swept id cs cs' vs vs' p q = rw (p, q) refl

  isvc_delete-IsRemoved :
      (p id : Uuid) (s : InferenceService)
      → isvc_row p id t.services ≡ some s
      → Hoare (At t) (isvc_delete E p id) (λ _. IsRemoved p id t) Never
  unfolding isvc_delete others_of
  isvc_delete-IsRemoved p id s found = Hoare-bind (reaches E up t _) λ _.
      reads _ _ t.services (λ w same. same.services)
        (finds _ _ _ s found (record {
          at = λ w same.
              let swept =
                variants_swept id w.configs t.configs w.variants t.variants same.configs
                  same.variants in
              record {
                service = isvc_row-gone p id t.services;
                serve_models =
                    All-differ (λ (m : ServeModel). m.inference_service_id) id _
                      (keep-not (λ m. m.inference_service_id == id) w.serve_models);
                configs =
                    All-differ (λ (c : TrafficConfig). c.inference_service_id) id _
                      (keep-not (is_config_of id) w.configs);
                variants =
                    subst (All (λ v. is_variant_of id t.configs v ≡ false)) (sym swept)
                      (keep-not (is_variant_of id t.configs) t.variants);
                others = λ q other ne. isvc_row-others p id q other t.services ne;
                untouched = (same.environments, same.versions, same.models);
                kept_models = ap (keep (λ m. not (m.inference_service_id == id))) same.serve_models;
                kept_configs = ap (keep (λ c. not (is_config_of id c))) same.configs;
                kept_variants = swept;
              };
        }))

  cleans :
      (p : Uuid) (s : InferenceService) (e : ServingEnvironment)
      → environment_row p s.serving_environment_id t.environments ≡ some e
      → Hoare
          (At t)
          (attempt (env_get_by_id E p s.serving_environment_id) >>= clean_up E s)
          (λ _. At t)
          Never
  unfolding clean_up
  cleans p s e env =
      Hoare-bind (attempts (env_get_by_id-found E up t p s.serving_environment_id e env)) λ o.
        record {
          at = λ w (a, is_some, (same, _)).
              subst (λ x. Post (λ _. At t) Never (clean_up E s x w)) (sym is_some)
                ((undeploys a.name s.name).at w same);
        }

  if_wanted :
      {m : M (Unit {0})} (b : Bool)
      → Hoare (At t) m (λ _. At t) Never
      → Hoare (At t) (if b then m else pure tt) (λ _. At t) Never
  if_wanted true h = h
  if_wanted false h = Hoare-pure tt λ w same. same

  delete_service_lem :
      (p id : Uuid) (s : InferenceService) (e : ServingEnvironment)
      → isvc_row p id t.services ≡ some s
      → environment_row p s.serving_environment_id t.environments ≡ some e
      → is_deployed s ≡ false
      → Hoare (At t) (delete_service E p id) (λ _. IsRemoved p id t) Never
  unfolding delete_service
  delete_service_lem p id s e found env idle =
      Hoare-bind (isvc_get_by_id-found E up t p id s found) λ r. Hoare-fact λ same.
        Hoare-bind (passes (is_deployed r) _ (ap is_deployed same ∙ idle)) λ _.
          Hoare-bind
            (if_wanted (not (str_eq r.name "") && E.kserve_available) (
              cleans p r e (
                ap
                  (λ (x : InferenceService).
                    environment_row p x.serving_environment_id t.environments)
                  same
                ∙ env)))
            λ _. isvc_delete-IsRemoved p id s found

-- If the database answers, Delete of a service that is not deployed and whose environment exists
-- succeeds, whatever KServe answers: neither the service nor its serve models, traffic
-- configurations and variants are left, active ones included, and all others are what they were.
pub delete_service-IsRemoved :
    (E : Oracle) (p id : Uuid) (s : InferenceService) (e : ServingEnvironment) (w : World)
    → Answers E
    → isvc_row p id w.services ≡ some s
    → environment_row p s.serving_environment_id w.environments ≡ some e
    → is_deployed s ≡ false
    → Post (λ _. IsRemoved p id w) Never (delete_service E p id w)
delete_service-IsRemoved E p id s e w up found env idle =
    (delete_service_lem E up w p id s e found env idle).at w (SameTables-refl w)
