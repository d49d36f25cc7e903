-- ===== src/Traffic/Canary/Promotion.antt =====
-- PromoteCanary against the unique names of the table traffic_variant.
use text.Mathlib.TextEquality.{eq_iff}
use mathlib.Core.Bool.{false≢true}
use model_registry_service.Base.{
  String, ◌≡◌, ◌≢◌, refl, sym, ◌∙◌, ap, ◌⊎◌, inl, inr, true, not, Option, none, some, List, [], ◌∷◌,
  str_eq_iff, arith, pos, ℤ,
}
use model_registry_service.Domain.Result.{ok}
use model_registry_service.Domain.Traffic.{
  Uuid, Time, TrafficVariant, TrafficConfig, is_active, set_weight,
}
use model_registry_service.Store.World.{Oracle, World}
use model_registry_service.Store.Silent.{Silent-time_now}
use model_registry_service.Store.Hoare.{
  Hoare, Hoare-bind, Hoare-silent, Hoare-weaken, Hoare-fact, Hoare-or_raise, Hoare-deref,
  Hoare-raise_if, never_ok,
}
use model_registry_service.Store.Variants.{rows_of, row_by_id, clashes}
use model_registry_service.Store.Variants.Rows.{
  Has, HasUniqueIds, Has-rows_of, row_by_id-Has, clashes-Has, ids_differ,
}
use model_registry_service.Store.Variants.Writes.{
  VariantsAre, VariantsAre-stable, Updated, variant_update_lem,
}
use model_registry_service.Traffic.Route.Config.{get_config_lem}
use model_registry_service.Traffic.Canary.{last_named, promote_canary}

last_named-Has_from :
    (name : String) (found : Option TrafficVariant) (vs : List TrafficVariant) (v : TrafficVariant)
    → last_named name found vs ≡ some v
    → (found ≡ some v) ⊎ (Has v vs × (v.variant_name ≡ name))
unfolding last_named
last_named-Has_from name found [] v h = inl h
last_named-Has_from name found (x ∷ xs) v h = ground (
  arith,
  str_eq_iff x.variant_name name,
  last_named-Has_from name found xs v,
  last_named-Has_from name (some x) xs v,
)

-- What the loop finds is in the list and has the name.
pub last_named-Has :
    (name : String) (vs : List TrafficVariant) (v : TrafficVariant)
    → last_named name none vs ≡ some v
    → Has v vs × (v.variant_name ≡ name)
last_named-Has name vs v h = elim (last_named-Has_from name none vs v h) [ inl e ↦ cc | inr p ↦ p ]

pub canary≢stable : ◌≢◌ {A = String} "canary" "stable"
canary≢stable p = false≢true ((eq_iff "canary" "stable").1 p)

-- The statement that renames the canary meets the row of the stable variant.
rename_clashes :
    (E : Oracle) (rows : List TrafficVariant) (w : World) (id : Uuid)
    (canary stable v : TrafficVariant)
    → HasUniqueIds rows
    → Has canary (rows_of id rows) × (canary.variant_name ≡ "canary")
    → Has stable (rows_of id rows) × (stable.variant_name ≡ "stable")
    → v.id ≡ canary.id
    → v.variant_name ≡ "stable"
    → ¬ Updated E v rows w
rename_clashes E rows w id canary stable v u (hc, nc) (hs, ns) same renamed d =
    let (canary_row, canary_config) = Has-rows_of canary id rows hc in
    let (stable_row, stable_config) = Has-rows_of stable id rows hs in
    let found : row_by_id canary.id rows ≡ some canary = row_by_id-Has canary rows u canary_row in
    let row_is : d.row ≡ canary = cc (found, same, d.found) in
    let taken : clashes v.id d.row.traffic_config_id v.variant_name rows ≡ true =
      clashes-Has stable v.id d.row.traffic_config_id v.variant_name rows stable_row
        (λ e.
          ids_differ rows stable canary u stable_row canary_row (λ q. canary≢stable (cc))
            (e ∙ same))
        (stable_config
          ∙ sym canary_config
          ∙ sym (ap (λ (r : TrafficVariant). r.traffic_config_id) row_is))
        (ns ∙ sym renamed) in
    cc (taken, d.fits.name)

pub set_weight-id :
    (now : Time) (weight : ℤ) (v : TrafficVariant) → (set_weight now weight v).0.id ≡ v.id
unfolding set_weight
set_weight-id now weight v = ground arith

module _ (E : Oracle) (project_id config_id : Uuid) (rows : List TrafficVariant)
    (u : HasUniqueIds rows) where
  promote_canary_lem :
      Hoare (VariantsAre rows) (promote_canary E project_id config_id) (λ _ _. ⊥) (VariantsAre rows)
  unfolding promote_canary
  promote_canary_lem = Hoare-bind (get_config_lem E rows project_id config_id) λ c.
      Hoare-fact λ loaded.
        Hoare-or_raise (λ w p. p) _ (last_named "canary" none c.variants)
          λ canary is_canary.
            Hoare-raise_if (λ w p. p) (not (is_active canary.status)) _
              λ _.
                Hoare-bind (Hoare-silent (VariantsAre-stable rows) (λ w p. p) (Silent-time_now E))
                  λ now.
                    Hoare-deref (λ w p. p) (last_named "stable" none c.variants)
                      λ stable is_stable.
                        Hoare-bind
                          (Hoare-weaken (λ w p. p)
                            (λ _ w p.
                              rename_clashes E rows w config_id canary stable _ u
                                (last_named-Has "canary" _ canary
                                  (ap (last_named "canary" none) (sym loaded.1) ∙ is_canary))
                                (last_named-Has "stable" _ stable
                                  (ap (last_named "stable" none) (sym loaded.1) ∙ is_stable))
                                (set_weight-id now (pos 100) canary) refl p)
                            (λ w p. p) (variant_update_lem E rows _))
                          (λ _. record { at = λ w p. absurd p })

-- If the identifiers of the variants are unique, as the primary key says, PromoteCanary never
-- succeeds: whatever else the tables hold and the database and the cluster answer, it returns no
-- configuration, and it leaves the table of variants as it was.
pub promote_canary_never_succeeds :
    (E : Oracle) (project_id config_id : Uuid) (w : World)
    → HasUniqueIds w.variants
    → ((config : TrafficConfig) → (promote_canary E project_id config_id w).0 ≢ ok config)
      × ((promote_canary E project_id config_id w).1.variants ≡ w.variants)
promote_canary_never_succeeds E p id w u = never_ok (promote_canary_lem E p id w.variants u) w refl
