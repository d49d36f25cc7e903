-- ===== src/Traffic/Variants/Keeps.antt =====
-- AddVariant, UpdateVariant and DeleteVariant keep the table of variants sound, on every branch.
use model_registry_service.Base.{
  String, ◌+◌, ◌≤◌, ◌≡◌, sym, ◌∙◌, ap, subst, false, some, List, arith, if◌then◌else◌, ℤ, pos,
  ltb_ℤ, ◌+ℤ◌, to_ℕ, str_eq,
}
use model_registry_service.Domain.Result.{ok}
use model_registry_service.Domain.Traffic.{
  Uuid, Time, TrafficVariant, TrafficConfig, new_traffic_variant, activate, sum_active,
  total_weight, has_variant, get_variant, active_weight,
}
use model_registry_service.Store.World.{Oracle, World, M}
use model_registry_service.Store.Silent.{
  Silent, Silent-new_uuid, Silent-time_now, Silent-attempt, Silent-ignore,
}
use model_registry_service.Store.Reads.{
  Silent-version_get_by_id, Silent-isvc_get_by_id, Silent-env_get_by_id,
}
use model_registry_service.Store.Hoare.{
  Hoare, IsStable, Hoare-bind, Hoare-silent, Hoare-weaken, Hoare-fact, Hoare-or_raise,
  Hoare-raise_if, Hoare-lift,
}
use model_registry_service.Store.Variants.{rows_of, row_by_id}
use model_registry_service.Store.Variants.Rows.{Has, Has-rows_of, row_by_id-Has}
use model_registry_service.Store.Variants.Writes.{
  VariantsAre, VariantsAre-stable, Created, Updated, variant_create_lem, variant_update_lem,
  variant_delete_lem,
}
use model_registry_service.Store.Variants.Budget.{
  config_weight, sum_active-rows_of, active_weight-le,
}
use model_registry_service.Traffic.Route.{get_config}
use model_registry_service.Traffic.Route.Silent.{
  Silent-get_config, Silent-sync_ai_gateway_route, Silent-undeploy_variant,
}
use model_registry_service.Traffic.Route.Config.{IsLoaded, get_config_lem}
use model_registry_service.Traffic.Canary.Silent.{Silent-deploy_variant}
use model_registry_service.Traffic.Variants.{
  AddVariantRequest, add_variant, update_variant, delete_variant, weight_set, settle, new_total,
}
use model_registry_service.Traffic.Variants.Sound.{
  IsIdle, IsSound, All-Has, get_variant-Has, Created-IsSound, Updated-IsSound, Deleted-IsSound,
}
use model_registry_service.Traffic.Variants.Guards.{
  add_guard, update_guard, added_row, settled_row, new_traffic_variant-ok, weight_set-ok,
}

-- The table of variants is sound.
abbrev pub Sound : World → Type 0
Sound w = IsSound w.variants

Sound-stable : IsStable Sound
Sound-stable = record { at = λ s p. subst IsSound (sym s.variants) p }

total_weight-loaded :
    (rows : List TrafficVariant) (id : Uuid) (c : TrafficConfig)
    → c.variants ≡ rows_of id rows
    → total_weight c ≡ config_weight id rows
unfolding total_weight
total_weight-loaded rows id c e = ap sum_active e ∙ sum_active-rows_of id rows

weight_at :
    (rows : List TrafficVariant) {a b : Uuid} → a ≡ b → config_weight a rows ≡ config_weight b rows
weight_at rows e = ap (λ (i : Uuid). config_weight i rows) e

idle_weight : (v : TrafficVariant) → IsIdle v → active_weight v ≡ v.weight
idle_weight v h = ground arith

module _ (E : Oracle) (rows : List TrafficVariant) (s : IsSound rows) where
  weak : (w : World) → VariantsAre rows w → Sound w
  weak w p = subst IsSound (sym p) s

  -- Before the write, and after it.
  before :
      {A : Type 0} {m : M A} → Silent m → Hoare (VariantsAre rows) m (λ _. VariantsAre rows) Sound
  before h = Hoare-silent (VariantsAre-stable rows) weak h

  after : {A : Type 0} {m : M A} → Silent m → Hoare Sound m (λ _. Sound) Sound
  after h = Hoare-silent Sound-stable (λ w p. p) h

  loading :
      (p id : Uuid)
      → Hoare
          (VariantsAre rows)
          (get_config E p id)
          (λ c w. VariantsAre rows w × IsLoaded E rows id c)
          Sound
  loading p id = Hoare-weaken (λ w p. p) (λ _ w p. p) weak (get_config_lem E rows p id)

  add_fits :
      {w : World} (version_id : Uuid) (variant_name : String) (weight : ℤ) (config_id : Uuid)
      (c : TrafficConfig) (id : Uuid) (created now : Time) (variant : TrafficVariant)
      (name : String)
      → IsLoaded E rows config_id c
      → ltb_ℤ (pos 100) (pos (total_weight c) +ℤ weight) ≡ false
      → new_traffic_variant id created c.id version_id variant_name weight ≡ ok variant
      → Created E
          (let named = record variant { kserve_isvc_name = name } in
            if ltb_ℤ (pos 0) weight then activate now named else named)
          rows
          w
      → Sound w
  add_fits version_id variant_name weight config_id c id created now variant name loaded guard made
        d =
      let named : TrafficVariant = record variant { kserve_isvc_name = name } in
      let (range, same, owner, _, status, _) =
        new_traffic_variant-ok id created c.id version_id variant_name weight variant made in
      let (idle, light, at_owner) = added_row now weight named same status range in
      let total : total_weight c ≡ config_weight config_id rows =
        total_weight-loaded rows config_id c loaded.1 in
      let room : total_weight c + to_ℕ weight ≤ 100 =
        add_guard (total_weight c) weight (omega (arith, total, s.within config_id)) range guard in
      Created-IsSound _ rows s idle
        (omega (arith, weight_at rows (at_owner ∙ owner ∙ loaded.0), total, room, light)) d

  pub add_variant_lem :
      (req : AddVariantRequest) → Hoare (VariantsAre rows) (add_variant E req) (λ _. Sound) Sound
  unfolding add_variant
  add_variant_lem req = Hoare-bind (loading req.project_id req.config_id) λ c. Hoare-fact λ loaded.
      Hoare-raise_if weak (has_variant c req.variant_name) _ λ _.
        Hoare-bind (before (Silent-version_get_by_id E req.project_id req.model_version_id))
          λ version.
            Hoare-raise_if weak (ltb_ℤ (pos 100) (pos (total_weight c) +ℤ req.weight)) _ λ guard.
              Hoare-bind (before (Silent-isvc_get_by_id E req.project_id c.inference_service_id))
                λ isvc.
                  Hoare-bind
                    (before (
                      Silent-attempt _
                        (Silent-env_get_by_id E req.project_id isvc.serving_environment_id)))
                    λ found.
                      Hoare-bind
                        (before (Silent-deploy_variant E _ req.project_id isvc found _ version))
                        λ _. Hoare-bind (before (Silent-new_uuid E)) λ id.
                          Hoare-bind (before (Silent-time_now E)) λ created.
                            Hoare-lift weak
                              (new_traffic_variant id created c.id req.model_version_id
                                req.variant_name req.weight)
                              λ variant made. Hoare-bind (before (Silent-time_now E)) λ now.
                                Hoare-bind
                                  (Hoare-weaken (λ w p. p)
                                    (λ _ w d.
                                      add_fits req.model_version_id req.variant_name req.weight
                                        req.config_id c id created now variant _ loaded guard made
                                        d)
                                    weak (variant_create_lem E rows _))
                                  λ _.
                                    Hoare-bind
                                      (after (Silent-ignore _ (Silent-sync_ai_gateway_route E c)))
                                      λ _. after (Silent-get_config E req.project_id req.config_id)

  update_fits :
      {w : World} (weight : ℤ) (config_id : Uuid) (name : String) (c : TrafficConfig)
      (v v' : TrafficVariant) (now : Time)
      → IsLoaded E rows config_id c
      → get_variant c name ≡ some v
      → ltb_ℤ (pos 100) (new_total c v weight) ≡ false
      → weight_set now weight v ≡ ok v'
      → Updated E (settle now weight v') rows w
      → Sound w
  unfolding new_total
  update_fits weight config_id name c v v' now loaded found guard made d =
      let (range, same, same_id, _) = weight_set-ok now weight v v' made in
      let (idle, light, kept) = settled_row now weight v' same range in
      let (listed, _) = get_variant-Has c name v found in
      let (is_row, owner) = Has-rows_of v config_id rows (subst (Has v) loaded.1 listed) in
      let total : total_weight c ≡ config_weight config_id rows =
        total_weight-loaded rows config_id c loaded.1 in
      let at_id : row_by_id (settle now weight v').id rows ≡ some v =
        rw (kept, same_id) (row_by_id-Has v rows s.unique is_row) in
      let old : active_weight v ≡ v.weight = idle_weight v (All-Has IsIdle v rows s.idle is_row) in
      let room : total_weight c + to_ℕ weight ≤ 100 + v.weight =
        update_guard (total_weight c) v.weight weight (omega (arith, total, s.within config_id))
          (omega (arith, total, old, weight_at rows owner, active_weight-le v rows is_row)) range
          guard in
      Updated-IsSound _ v rows s idle at_id
        (omega (arith, weight_at rows owner, total, room, light, old)) d

  pub update_variant_lem :
      (p id : Uuid) (name : String) (weight : ℤ)
      → Hoare (VariantsAre rows) (update_variant E p id name weight) (λ _. Sound) Sound
  unfolding update_variant
  update_variant_lem p id name weight = Hoare-bind (loading p id) λ c. Hoare-fact λ loaded.
      Hoare-or_raise weak _ (get_variant c name) λ v found.
        Hoare-raise_if weak (ltb_ℤ (pos 100) (new_total c v weight)) _ λ guard.
          Hoare-bind (before (Silent-time_now E)) λ now.
            Hoare-lift weak (weight_set now weight v) λ v' made.
              Hoare-bind
                (Hoare-weaken (λ w p. p)
                  (λ _ w d. update_fits weight id name c v v' now loaded found guard made d) weak
                  (variant_update_lem E rows _))
                λ _.
                  Hoare-bind (after (Silent-ignore _ (Silent-sync_ai_gateway_route E c)))
                    λ _. after (Silent-get_config E p id)

  pub delete_variant_lem :
      (p id : Uuid) (name : String)
      → Hoare (VariantsAre rows) (delete_variant E p id name) (λ _. Sound) Sound
  unfolding delete_variant
  delete_variant_lem p id name = Hoare-bind (loading p id) λ c. Hoare-fact λ loaded.
      Hoare-raise_if weak (str_eq name "stable") _ λ _.
        Hoare-or_raise weak _ (get_variant c name) λ v found.
          Hoare-bind (before (Silent-undeploy_variant E p c v)) λ _.
            Hoare-bind
              (Hoare-weaken (λ w p. p) (λ _ w d. Deleted-IsSound v.id rows s d) weak
                (variant_delete_lem E rows v.id))
              λ _.
                Hoare-bind (after (Silent-ignore _ (Silent-sync_ai_gateway_route E c)))
                  λ _. after (Silent-get_config E p id)
