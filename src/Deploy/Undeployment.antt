-- ===== src/Deploy/Undeployment.antt =====
-- What DeployService.Undeploy leaves in the table inference_service.
use model_registry_service.Base.{◌≡◌, ◌≢◌, refl, ◌∙◌, ap, subst, some, List}
use model_registry_service.Domain.Traffic.{Uuid}
use model_registry_service.Domain.Serving.{InferenceService, undeployed, undeploy, mark_undeployed}
use model_registry_service.Store.World.{Oracle, World, M}
use model_registry_service.Store.Silent.{
  Silent, Silent-pure, Silent-time_now, Silent-if, Silent-ignore,
}
use model_registry_service.Store.Reads.{Silent-env_get_by_id}
use model_registry_service.Store.Hoare.{
  Post, Hoare, Hoare-bind, Hoare-silent, Hoare-weaken, Hoare-fact,
}
use model_registry_service.Store.Serving.{isvc_row, isvc_overwrite, update_isvcs}
use model_registry_service.Store.Serving.Writes.{
  ServicesAre, ServicesAre-stable, Rewritten, isvc_row-id, isvc_row-update_isvcs_self,
  isvc_row-update_isvcs_ne, isvc_get_by_id_lem, isvc_update_lem,
}
use model_registry_service.Traffic.Route.Silent.{Silent-kserve_undeploy}
use model_registry_service.Deploy.{undeploy_service}

-- The service is undeployed, wanted so, and has no URL; the rows of the others are what they were.
pub record IsUndeployed (p id : Uuid) (before after : List InferenceService) : Type 0 where
  pub row : InferenceService
  pub found : isvc_row p id after ≡ some row
  pub desired : row.desired_state ≡ undeployed
  pub current : row.current_state ≡ undeployed
  pub url : row.url ≡ ""
  pub others : (q other : Uuid) → other ≢ id → isvc_row q other after ≡ isvc_row q other before

cleared :
    (p id : Uuid) (s : InferenceService) (rows : List InferenceService) (w : World)
    → s.id ≡ id
    → s.desired_state ≡ undeployed
    → s.current_state ≡ undeployed
    → s.url ≡ ""
    → Rewritten p s rows w
    → IsUndeployed p id rows w.services
unfolding isvc_overwrite
cleared p id s rows w e d c u h = record {
  row = isvc_overwrite h.now s h.row;
  found =
      ap (λ t. isvc_row p id t) h.table
      ∙ subst
          (λ i. isvc_row p i (update_isvcs h.now p s rows) ≡ some (isvc_overwrite h.now s h.row)) e
          (isvc_row-update_isvcs_self h.now p s h.row rows h.found);
  desired = d;
  current = c;
  url = u;
  others = λ q other ne.
      ap (λ t. isvc_row q other t) h.table
      ∙ isvc_row-update_isvcs_ne q other h.now p s rows (λ same. ne (same ∙ e));
}

module _ (E : Oracle) (rows : List InferenceService) where
  abbrev Same : World → Type 0
  Same = ServicesAre rows

  silently : {A : Type 0} {m : M A} → Silent m → Hoare Same m (λ _. Same) Same
  silently = Hoare-silent (ServicesAre-stable rows) (λ w p. p)

  undeploy_service_hoare :
      (p id : Uuid)
      → Hoare Same (undeploy_service E p id) (λ _ w. IsUndeployed p id rows w.services) Same
  unfolding undeploy_service undeploy mark_undeployed
  undeploy_service_hoare p id = Hoare-bind (isvc_get_by_id_lem E rows p id) λ s. Hoare-fact λ found.
      Hoare-bind (silently (Silent-env_get_by_id E p s.serving_environment_id)) λ env.
        Hoare-bind
          (silently (
            Silent-if E.kserve_available _ _ (Silent-ignore _ (Silent-kserve_undeploy E _ s.name))
              (Silent-pure tt)))
          λ _. Hoare-bind (silently (Silent-time_now E)) λ now.
            Hoare-weaken (λ w p. p)
              (λ _ w h.
                cleared p id (mark_undeployed now (undeploy now s)) rows w
                  (isvc_row-id p id rows s found) refl refl refl h)
              (λ w p. p) (isvc_update_lem E rows p (mark_undeployed now (undeploy now s)))

-- If Undeploy succeeds, the service's row is undeployed in both states and has no URL, whatever
-- the cluster answered, and no other row has changed; if it fails, the table is as it was.
pub undeploy_service-IsUndeployed :
    (E : Oracle) (p id : Uuid) (w : World)
    → Post
        (λ _ w'. IsUndeployed p id w.services w'.services)
        (λ w'. w'.services ≡ w.services)
        (undeploy_service E p id w)
undeploy_service-IsUndeployed E p id w = (undeploy_service_hoare E w.services p id).at w refl
