-- ===== src/Domain/Serving/States.antt =====
-- The life of an inference service under the methods of internal/core/domain/serving.go.
use model_registry_service.Base.{String, ◌≡◌, refl, ◌∙◌, arith, false, List, [], ◌∷◌}
use model_registry_service.Domain.Traffic.{Time}
use model_registry_service.Domain.Serving.{
  InferenceService, deploy, undeploy, mark_deployed, mark_undeployed, mark_failed, set_external_id,
  is_deployed,
}

-- A call of one of the methods.
pub data Event : Type 0 where
  deploy_event undeploy_event mark_undeployed_event : Event
  mark_deployed_event mark_failed_event set_external_id_event : String → Event

unfoldable pub apply : Time → Event → InferenceService → InferenceService
unfolding deploy undeploy mark_deployed mark_undeployed mark_failed set_external_id
apply now Event.deploy_event is = deploy now is
apply now Event.undeploy_event is = undeploy now is
apply now Event.mark_undeployed_event is = mark_undeployed now is
apply now (Event.mark_deployed_event url) is = mark_deployed now url is
apply now (Event.mark_failed_event error) is = mark_failed now error is
apply now (Event.set_external_id_event id) is = set_external_id now id is

-- The calls in order, each with the time at which it is made.
unfoldable pub run : List (Time × Event) → InferenceService → InferenceService
run [] is = is
run ((now, e) ∷ es) is = run es (apply now e is)

-- What holds of a service between calls: one that is not deployed has no URL.
abbrev pub HasNoStaleUrl : InferenceService → Type 0
HasNoStaleUrl is = is_deployed is ≡ false → is.url ≡ ""

apply-HasNoStaleUrl :
    (now : Time) (e : Event) (is : InferenceService)
    → HasNoStaleUrl is
    → HasNoStaleUrl (apply now e is)
unfolding apply is_deployed
apply-HasNoStaleUrl now Event.deploy_event is h = h
apply-HasNoStaleUrl now Event.undeploy_event is h = h
apply-HasNoStaleUrl now Event.mark_undeployed_event is h = ground arith
apply-HasNoStaleUrl now (Event.mark_deployed_event url) is h = ground arith
apply-HasNoStaleUrl now (Event.mark_failed_event error) is h = h
apply-HasNoStaleUrl now (Event.set_external_id_event id) is h = h

-- Two records of one service: the fields that no method writes.
abbrev pub IsSameService : InferenceService → InferenceService → Type 0
IsSameService a b =
    (a.id ≡ b.id)
    × (a.project_id ≡ b.project_id)
    × (a.name ≡ b.name)
    × (a.serving_environment_id ≡ b.serving_environment_id)
    × (a.registered_model_id ≡ b.registered_model_id)

IsSameService-apply :
    (now : Time) (e : Event) (is : InferenceService) → IsSameService (apply now e is) is
unfolding apply
IsSameService-apply now Event.deploy_event is = (refl, refl, refl, refl, refl)
IsSameService-apply now _ is = (refl, refl, refl, refl, refl)

-- Whatever methods are called in whatever order on a service that has a URL only if it is
-- deployed, it has a URL only if it is deployed afterwards, and it is still the same service of
-- the same project, model and environment under the same name.
pub run-HasNoStaleUrl :
    (es : List (Time × Event)) (is : InferenceService)
    → HasNoStaleUrl is
    → HasNoStaleUrl (run es is) × IsSameService (run es is) is
unfolding run
run-HasNoStaleUrl [] is h = (h, (refl, refl, refl, refl, refl))
run-HasNoStaleUrl ((now, e) ∷ es) is h =
    let (url, (a, b, c, d, f)) =
      run-HasNoStaleUrl es (apply now e is) (apply-HasNoStaleUrl now e is h) in
    let (a', b', c', d', f') = IsSameService-apply now e is in
    (url, (a ∙ a', b ∙ b', c ∙ c', d ∙ d', f ∙ f'))
