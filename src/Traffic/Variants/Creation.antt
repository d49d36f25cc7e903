-- ===== src/Traffic/Variants/Creation.antt =====
-- AddVariant against the columns that migrations/000003 declares NOT NULL.
use model_registry_service.Base.{
  String, ◌≡◌, ◌≢◌, Bool, true, false, arith, ℤ, pos, ltb_ℤ, ◌+ℤ◌, ◌<>◌, if◌then◌else◌,
}
use model_registry_service.Domain.Result.{ok}
use model_registry_service.Domain.Traffic.{
  Uuid, Time, TrafficVariant, TrafficConfig, new_traffic_variant, activate, total_weight,
  has_variant,
}
use model_registry_service.Store.World.{Oracle, World, M}
use model_registry_service.Store.Silent.{
  SameTables, SameTables-refl, SameTables-trans, Silent, At, Silent-raise_if, Silent-new_uuid,
  Silent-time_now, Silent-attempt, Silent-reach_database,
}
use model_registry_service.Store.Reads.{
  Silent-isvc_get_by_id, Silent-version_get_by_id, Silent-env_get_by_id,
}
use model_registry_service.Store.Hoare.{
  Hoare, Hoare-bind, Hoare-silent, Hoare-raise_if, Hoare-lift, Hoare-wrapping, never_ok,
}
use model_registry_service.Store.Variants.{is_null, lacks_text, variant_create, has_id}
use model_registry_service.Traffic.Route.Silent.{Silent-get_config}
use model_registry_service.Traffic.Canary.Silent.{Silent-deploy_variant}
use model_registry_service.Traffic.Variants.{AddVariantRequest, add_variant}

new_traffic_variant-revision :
    (id : Uuid) (now : Time) (config version : Uuid) (name : String) (weight : ℤ)
    (v : TrafficVariant)
    → new_traffic_variant id now config version name weight ≡ ok v
    → v.kserve_revision ≡ ""
unfolding new_traffic_variant
new_traffic_variant-revision id now config version name weight v h = ground arith

lacks_revision : (v : TrafficVariant) → v.kserve_revision ≡ "" → lacks_text v ≡ true
unfolding is_null
lacks_revision v h = rw h (ground arith)

activated :
    (b : Bool) (now : Time) (v : TrafficVariant)
    → v.kserve_revision ≡ ""
    → (if b then activate now v else v).kserve_revision ≡ ""
unfolding activate
activated true now v h = h
activated false now v h = h

module _ (E : Oracle) (t : World) where
  reading : {A : Type 0} {m : M A} → Silent m → Hoare (At t) m (λ _. At t) (At t)
  reading h = Hoare-silent (record { at = λ s p. SameTables-trans s p }) (λ w p. p) h

  -- No row without a revision is inserted.
  pub variant_create_fails :
      (v : TrafficVariant)
      → v.kserve_revision ≡ ""
      → Hoare (At t) (variant_create E v) (λ _ _. ⊥) (At t)
  unfolding variant_create
  variant_create_fails v empty = Hoare-wrapping _ (
      Hoare-bind (reading (Silent-reach_database E)) λ _.
        Hoare-bind (record { at = λ w p. p })
          λ rows.
            Hoare-raise_if (λ w p. p) (has_id v.id rows) _
              λ fresh.
                Hoare-bind
                  (Hoare-raise_if (λ w p. p) (lacks_text v) _
                    λ passes. cc (passes, lacks_revision v empty))
                  λ _. record { at = λ w p. absurd p })

  add_variant_fails : (req : AddVariantRequest) → Hoare (At t) (add_variant E req) (λ _ _. ⊥) (At t)
  unfolding add_variant
  add_variant_fails req =
      Hoare-bind (reading (Silent-get_config E req.project_id req.config_id)) λ c.
        Hoare-bind (reading (Silent-raise_if (has_variant c req.variant_name) _)) λ _.
          Hoare-bind (reading (Silent-version_get_by_id E req.project_id req.model_version_id))
            λ version.
              Hoare-bind
                (reading (Silent-raise_if (ltb_ℤ (pos 100) (pos (total_weight c) +ℤ req.weight)) _))
                λ _.
                  Hoare-bind
                    (reading (Silent-isvc_get_by_id E req.project_id c.inference_service_id))
                    λ isvc.
                      Hoare-bind
                        (reading (
                          Silent-attempt _
                            (Silent-env_get_by_id E req.project_id isvc.serving_environment_id)))
                        λ found.
                          Hoare-bind
                            (reading
                              (Silent-deploy_variant E _ req.project_id isvc found _ version))
                            λ _. Hoare-bind (reading (Silent-new_uuid E)) λ id.
                              Hoare-bind (reading (Silent-time_now E)) λ created.
                                Hoare-lift (λ w p. p)
                                  (new_traffic_variant id created c.id req.model_version_id
                                    req.variant_name req.weight)
                                  λ v made. Hoare-bind (reading (Silent-time_now E)) λ now.
                                    Hoare-bind
                                      (variant_create_fails _ (
                                        activated (ltb_ℤ (pos 0) req.weight) now
                                          (record v {
                                            kserve_isvc_name = isvc.name <> "-" <> req.variant_name;
                                          })
                                          (new_traffic_variant-revision id created c.id
                                            req.model_version_id req.variant_name req.weight v
                                            made)))
                                      λ _. record { at = λ w p. absurd p }

-- Against the columns that migrations/000003 declares NOT NULL AddVariant never succeeds, since no
-- code gives a variant a revision and its empty text is sent as NULL: whatever the request, the
-- tables and the answers of the database and the cluster, it returns no configuration and leaves
-- every table as it was.
pub add_variant_never_succeeds :
    (E : Oracle) (req : AddVariantRequest) (w : World)
    → ((config : TrafficConfig) → (add_variant E req w).0 ≢ ok config)
      × SameTables (add_variant E req w).1 w
add_variant_never_succeeds E req w = never_ok (add_variant_fails E w req) w (SameTables-refl w)
