-- ===== src/Deploy/Outcome.antt =====
-- What DeployService.Deploy returns.
use model_registry_service.Base.{
  ◌≡◌, refl, sym, none, ap, ◌∙◌, ◌⊎◌, inl, inr, true, some, List, [], ◌∷◌, All, arith, Option-cases,
}
use model_registry_service.Domain.Result.{Result, ok, err, panic}
use model_registry_service.Domain.Traffic.{Uuid, Time}
use model_registry_service.Domain.Serving.{
  InferenceService, ServingEnvironment, ServeModel, ServeModelState, new_serve_model, set_state,
  mark_failed,
}
use model_registry_service.Domain.Registry.{ModelVersion, RegisteredModel}
use model_registry_service.Store.World.{Oracle, World, M, Reply, KserveDeployment}
use model_registry_service.Store.Silent.{
  Silent, At, SameTables-refl, SameTables-trans, Silent-reach_database,
}
use model_registry_service.Store.Reads.{Silent-env_get_by_id}
use model_registry_service.Store.Reliable.{reads}
use model_registry_service.Store.Hoare.{
  Post, Hoare, Hoare-bind, Hoare-silent, Hoare-wrapping, Hoare-fact, Hoare-pure, Hoare-lift,
  Hoare-or_raise, Hoare-or_raise_last, Hoare-weaken, returned,
}
use model_registry_service.Store.Gives.{
  Gives, Gives-pure, Gives-lift, Gives-wrapping, Gives-weaken, Gives-if, Gives-bind, Gives-step,
}
use model_registry_service.Store.Serving.{
  version_row, version_get_by_id, model_row, model_get_by_id, load_version_meta, latest_of,
  default_of,
}
use model_registry_service.Deploy.{
  DeployRequest, DeployResult, is_ready, default_versions, check_ready, get_versions,
  resolve_versions, create_serve_models, set_states, settle_deployment, run_deployment, deploy,
}

abbrev pub version_ids : List ModelVersion → List Uuid
version_ids [] = []
version_ids (v ∷ vs) = v.id ∷ version_ids vs

abbrev pub served_ids : List ServeModel → List Uuid
served_ids [] = []
served_ids (m ∷ ms) = m.model_version_id ∷ served_ids ms

-- The rows of the table under these identifiers, in their order.
abbrev pub AreStored : Uuid → World → List Uuid → List ModelVersion → Type 0
AreStored p t [] [] = Unit
AreStored p t [] (v ∷ vs) = ⊥
AreStored p t (id ∷ ids) [] = ⊥
AreStored p t (id ∷ ids) (v ∷ vs) =
    (version_row p id t.models t.versions ≡ some v) × AreStored p t ids vs

-- The default version of the model in the table, or its latest one if there is no default.
abbrev pub IsDefault : Uuid → World → ModelVersion → Type 0
IsDefault model_id t v =
    (default_of model_id t.versions ≡ some v)
    ⊎ ((default_of model_id t.versions ≡ none) × (latest_of model_id t.versions ≡ some v))

-- The versions that a request stands for: those it names, in its order, or one of the model.
abbrev pub AreResolved : Uuid → Uuid → World → List Uuid → List ModelVersion → Type 0
AreResolved p model_id t [] vs = (v : ModelVersion) × (vs ≡ v ∷ []) × IsDefault model_id t v
AreResolved p model_id t (id ∷ ids) vs = AreStored p t (id ∷ ids) vs

abbrev pub AreReady : List ModelVersion → Type 0
AreReady = All (λ v. is_ready v.status ≡ true)

-- Every serve model is in the state.
abbrev pub AllIn : ServeModelState → List ServeModel → Type 0
AllIn state = All (λ m. m.last_known_state ≡ state)

-- The status and what it says of the serve models and of the service.
abbrev pub Agrees : DeployResult → Type 0
Agrees r =
    ((r.status ≡ "PENDING") × AllIn ServeModelState.pending r.served_models)
    ⊎ ((r.status ≡ "FAILED")
        × (r.inference_service.last_error ≡ r.message)
        × AllIn ServeModelState.failed r.served_models)

abbrev pub IsOutcome : DeployRequest → World → DeployResult → Type 0
IsOutcome req t r =
    ((vs : List ModelVersion) × AreResolved req.project_id req.registered_model_id t
        req.model_version_ids vs
      × AreReady vs
      × (served_ids r.served_models ≡ version_ids vs))
    × Agrees r

check_ready-AreReady : (vs : List ModelVersion) (u : Unit {0}) → check_ready vs ≡ ok u → AreReady vs
unfolding check_ready
check_ready-AreReady [] u h = tt
check_ready-AreReady (v ∷ vs) u h = ground (arith, check_ready-AreReady vs u)

model_row-id :
    (p id : Uuid) (rows : List RegisteredModel) (m : RegisteredModel)
    → model_row p id rows ≡ some m
    → m.id ≡ id
unfolding model_row
model_row-id p id [] m h = cc
model_row-id p id (r ∷ rows) m h = ground (arith, model_row-id p id rows m)

-- The model as the repository has filled it in.
abbrev IsLoaded : Uuid → World → RegisteredModel → Type 0
IsLoaded id t model =
    (model.latest_version ≡ latest_of id t.versions)
    × (model.default_version ≡ default_of id t.versions)

default_versions-IsDefault :
    (id : Uuid) (t : World) (model : RegisteredModel) (vs : List ModelVersion)
    → IsLoaded id t model
    → default_versions model ≡ ok vs
    → (v : ModelVersion) × (vs ≡ v ∷ []) × IsDefault id t v
unfolding default_versions
default_versions-IsDefault id t model vs loaded h = elim (Option-cases model.default_version) [
  | inr (v, e) ↦ (v, ground arith, inl (sym loaded.1 ∙ e))
  | inl e ↦ elim (Option-cases model.latest_version) [
    | inr (v, e') ↦ (v, ground arith, inr (sym loaded.1 ∙ e, sym loaded.0 ∙ e'))
    | inl e' ↦ ground arith
  ]
]

new_serve_model-pending :
    (id : Uuid) (now : Time) (p s v : Uuid) (m : ServeModel)
    → new_serve_model id now p s v ≡ ok m
    → (m.model_version_id ≡ v) × (m.last_known_state ≡ ServeModelState.pending)
unfolding new_serve_model
new_serve_model-pending id now p s v m h = ground arith

ServedAfter : ServeModelState → List ServeModel → List ServeModel → Type 0
ServedAfter state before after = (served_ids after ≡ served_ids before) × AllIn state after

module _ (E : Oracle) where
  set_states_lem :
      (p : Uuid) (state : ServeModelState) (ms : List ServeModel)
      → Gives (set_states E p state ms) (ServedAfter state ms)
  unfolding set_states set_state ServedAfter
  set_states_lem p state [] = Gives-pure [] (refl, tt)
  set_states_lem p state (m ∷ ms) = Gives-step _ λ now. Gives-step _ λ _.
      Gives-bind (set_states_lem p state ms) λ rest (ids, states).
        Gives-pure (set_state now state m ∷ rest)
          (ap (λ l. m.model_version_id ∷ l) ids, (refl, states))

  create_serve_models_lem :
      (p s : Uuid) (vs : List ModelVersion)
      → Gives
          (create_serve_models E p s vs)
          (λ ms. (served_ids ms ≡ version_ids vs) × AllIn ServeModelState.pending ms)
  unfolding create_serve_models
  create_serve_models_lem p s [] = Gives-pure [] (refl, tt)
  create_serve_models_lem p s (v ∷ vs) = Gives-step _ λ id. Gives-step _ λ now.
      Gives-bind (Gives-wrapping _ (Gives-lift _ (new_serve_model-pending id now p s v.id)))
        λ m (e, pending). Gives-step _ λ _.
          Gives-bind (create_serve_models_lem p s vs)
            λ ms (ids, states). Gives-pure (m ∷ ms) (cc (e, ids), (pending, states))

  -- What the steps after the serve models are stored keep of them.
  abbrev Settles : List ServeModel → DeployResult → Type 0
  Settles served r = (served_ids r.served_models ≡ served_ids served) × Agrees r

  settle_deployment_lem :
      (p : Uuid) (s : InferenceService) (served : List ServeModel) (r : Reply KserveDeployment)
      → AllIn ServeModelState.pending served
      → Gives (settle_deployment E p s served r) (Settles served)
  unfolding settle_deployment mark_failed ServedAfter
  settle_deployment_lem p s served (Reply.refused e) h = Gives-step _ λ now. Gives-step _ λ _.
      Gives-bind (set_states_lem p ServeModelState.failed served)
        λ ms (ids, states). Gives-pure _ (ids, inr (refl, refl, states))
  settle_deployment_lem p s served (Reply.done d) h =
      Gives-step _ λ now. Gives-step _ λ _. Gives-pure _ (refl, inl (refl, h))

  run_deployment_lem :
      (p : Uuid) (env : ServingEnvironment) (s : InferenceService) (served : List ServeModel)
      (vs : List ModelVersion)
      → AllIn ServeModelState.pending served
      → Gives (run_deployment E p env s served vs) (Settles served)
  unfolding run_deployment
  run_deployment_lem p env s served vs h =
      Gives-step _ λ v. Gives-step _ λ outcome. settle_deployment_lem p s served outcome h

  -- The steps after the versions are checked.
  abbrev Serves : List ModelVersion → DeployResult → Type 0
  Serves vs r = (served_ids r.served_models ≡ version_ids vs) × Agrees r

abbrev Anything : World → Type 0
Anything _ = Unit

post_of :
    {A : Type 0} (C : A → Type 0) (r : Result A) (w : World)
    → ((a : A) → r ≡ ok a → C a)
    → Post (λ a _. C a) Anything (r, w)
post_of C (ok a) w h = h a refl
post_of C (err e) w h = tt
post_of C panic w h = tt

Hoare-Gives :
    {A : Type 0} {P : World → Type 0} {C : A → Type 0} {m : M A}
    → Gives m C
    → Hoare P m (λ a _. C a) Anything
Hoare-Gives {C = C} {m = m} g = record { at = λ w p. post_of C (m w).0 (m w).1 (g.at w) }

from_fact :
    {A C : Type 0} {m : M A} {Q : A → World → Type 0}
    → (C → Hoare (λ _. C) m Q Anything)
    → Hoare (λ _. C) m Q Anything
from_fact h = record { at = λ w c. (h c).at w c }

-- What the queries of a deployment read is what the table holds before it.
module _ (E : Oracle) (t : World) where
  looking : {A : Type 0} {m : M A} → Silent m → Hoare (At t) m (λ _. At t) Anything
  looking h = Hoare-silent (record { at = λ s p. SameTables-trans s p }) (λ w p. tt) h

  version_get_by_id-stored :
      (p id : Uuid)
      → Hoare
          (At t)
          (version_get_by_id E p id)
          (λ v w. At t w × (version_row p id t.models t.versions ≡ some v))
          Anything
  unfolding version_get_by_id
  version_get_by_id-stored p id =
      Hoare-bind (Hoare-wrapping _ (looking (Silent-reach_database E))) λ _.
        reads _ _ t.models (λ w s. s.models)
          (reads _ _ t.versions (λ w s. s.versions)
            (Hoare-or_raise_last (λ v. version_row p id t.models t.versions ≡ some v) (λ w s. tt) _
              (version_row p id t.models t.versions) (λ v e. e)))

  get_versions-stored :
      (p : Uuid) (ids : List Uuid)
      → Hoare (At t) (get_versions E p ids) (λ vs w. At t w × AreStored p t ids vs) Anything
  unfolding get_versions
  get_versions-stored p [] = Hoare-pure [] (λ w s. (s, tt))
  get_versions-stored p (id ∷ ids) =
      Hoare-bind (Hoare-wrapping _ (version_get_by_id-stored p id)) λ v. Hoare-fact λ ev.
        Hoare-bind (get_versions-stored p ids)
          λ vs. Hoare-fact λ evs. Hoare-pure (v ∷ vs) (λ w s. (s, (ev, evs)))

  model_get_by_id-IsLoaded :
      (p id : Uuid)
      → Hoare (At t) (model_get_by_id E p id) (λ m w. At t w × IsLoaded id t m) Anything
  unfolding model_get_by_id load_version_meta
  model_get_by_id-IsLoaded p id =
      Hoare-bind (Hoare-wrapping _ (looking (Silent-reach_database E))) λ _.
        reads _ _ t.models (λ w s. s.models)
          (Hoare-or_raise (λ w s. tt) _ (model_row p id t.models)
            λ m found.
              let same : m.id ≡ id = model_row-id p id t.models m found in
              reads _ _ t.versions (λ w s. s.versions)
                (Hoare-bind (Hoare-wrapping _ (looking (Silent-reach_database E))) λ _.
                  reads _ _ t.versions (λ w s. s.versions)
                    (Hoare-bind (Hoare-wrapping _ (looking (Silent-reach_database E))) λ _.
                      Hoare-pure _ (λ w s. (
                        s,
                        (
                          ap (λ i. latest_of i t.versions) same,
                          ap (λ i. default_of i t.versions) same,
                        ),
                      )))))

  resolve_versions-stored :
      (p id : Uuid) (ids : List Uuid) (model : RegisteredModel)
      → IsLoaded id t model
      → Hoare (At t) (resolve_versions E p ids model) (λ vs w. AreResolved p id t ids vs) Anything
  unfolding resolve_versions
  resolve_versions-stored p id [] model loaded =
      Hoare-Gives (Gives-lift _ (λ vs. default_versions-IsDefault id t model vs loaded))
  resolve_versions-stored p id (v ∷ ids) model loaded =
      Hoare-weaken (λ w s. s) (λ vs w r. r.1) (λ w e. e) (get_versions-stored p (v ∷ ids))

  deploy-Hoare :
      (req : DeployRequest) → Hoare (At t) (deploy E req) (λ r _. IsOutcome req t r) Anything
  unfolding deploy
  deploy-Hoare req = Hoare-bind (Hoare-wrapping _ (looking (Silent-env_get_by_id E _ _))) λ env.
      Hoare-bind
        (Hoare-wrapping _ (model_get_by_id-IsLoaded req.project_id req.registered_model_id))
        λ model. Hoare-fact λ loaded.
          Hoare-bind
            (resolve_versions-stored req.project_id req.registered_model_id req.model_version_ids
              model loaded)
            λ vs. from_fact λ resolved.
              Hoare-lift (λ w s. tt) (check_ready vs)
                λ u passed.
                  Hoare-weaken (λ w s. s)
                    (λ r w s. ((vs, resolved, check_ready-AreReady vs u passed, s.0), s.1))
                    (λ w e. e)
                    (Hoare-Gives {C = Serves E vs} (
                      Gives-step _ λ name. Gives-step _ λ id. Gives-step _ λ now.
                        Gives-step _ λ isvc. Gives-step _ λ _.
                          Gives-bind (create_serve_models_lem E req.project_id isvc.id vs)
                            λ ms (ids, states). Gives-step _ λ found. Gives-step _ λ loaded.
                              Gives-weaken (λ r (kept, agrees). (kept ∙ ids, agrees))
                                (Gives-if {C = Settles E ms} E.kserve_available
                                  (run_deployment_lem E req.project_id env loaded ms vs states)
                                  (Gives-pure _ (refl, inl (refl, states))))))

-- A deployment that returns without an error serves exactly the versions that the tables held,
-- before it, under the identifiers of the request, in the request's order, or if it names none the
-- default version of the request's model, or the latest one if there is no default; each of these
-- rows was ready. It reports "PENDING" with every serve model pending, or "FAILED" with every serve
-- model failed and the message as the last error of the service.
pub deploy-IsOutcome :
    (E : Oracle) (req : DeployRequest) (w : World) (r : DeployResult)
    → (deploy E req w).0 ≡ ok r
    → IsOutcome req w r
deploy-IsOutcome E req w r h = returned (deploy-Hoare E w req) w (SameTables-refl w) r h
