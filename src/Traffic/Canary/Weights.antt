-- ===== src/Traffic/Canary/Weights.antt =====
-- UpdateCanaryWeight: what a call that returns has done.
use model_registry_service.Base.{
  ℕ, ◌+◌, ◌≡◌, ◌≢◌, refl, sym, ◌∙◌, ap, subst, false, none, some, List, arith, ℤ, pos, negsuc, to_ℕ,
  ◌-ℤ◌,
}
use model_registry_service.Domain.Result.{ok}
use model_registry_service.Domain.Traffic.{
  Uuid, Time, TrafficVariant, TrafficConfig, out_of_range, set_weight,
}
use model_registry_service.Store.World.{Oracle, World, M}
use model_registry_service.Store.Silent.{Silent, Silent-time_now, Silent-ignore}
use model_registry_service.Store.Hoare.{
  Hoare, Hoare-bind, Hoare-silent, Hoare-weaken, Hoare-fact, Hoare-or_raise, Hoare-deref,
  Hoare-raise_if, returned,
}
use model_registry_service.Store.Variants.{rows_of, row_by_id, overwrite, update_rows}
use model_registry_service.Store.Variants.Rows.{
  Has, HasUniqueIds, Has-rows_of, row_by_id-Has, ids_differ,
}
use model_registry_service.Store.Variants.Writes.{
  VariantsAre, VariantsAre-stable, Updated, variant_update_lem,
}
use model_registry_service.Store.Variants.Lookup.{two_updates, row_at, Hoare-Updated}
use model_registry_service.Traffic.Route.Silent.{Silent-get_config, Silent-sync_ai_gateway_route}
use model_registry_service.Traffic.Route.Config.{get_config_lem}
use model_registry_service.Traffic.Canary.{last_named, update_canary_weight}
use model_registry_service.Traffic.Canary.Promotion.{last_named-Has, canary≢stable, set_weight-id}

-- Between the two tables the canary of the configuration has got the weight and the stable
-- variant what is left of 100, and no other row has changed.
pub record IsSplit (id : Uuid) (weight : ℕ) (rows rows' : List TrafficVariant) : Type 0 where
  pub canary : TrafficVariant
  pub stable : TrafficVariant
  pub canary_before : Has canary (rows_of id rows) × (canary.variant_name ≡ "canary")
  pub stable_before : Has stable (rows_of id rows) × (stable.variant_name ≡ "stable")
  pub canary_after : TrafficVariant
  pub stable_after : TrafficVariant
  pub canary_found : row_by_id canary.id rows' ≡ some canary_after
  pub stable_found : row_by_id stable.id rows' ≡ some stable_after
  pub canary_weight : canary_after.weight ≡ weight
  pub shares : canary_after.weight + stable_after.weight ≡ 100
  pub others :
      (other : Uuid)
      → other ≢ canary.id
      → other ≢ stable.id
      → row_by_id other rows' ≡ row_by_id other rows

pub set_weight-weight :
    (now : Time) (weight : ℤ) (v : TrafficVariant)
    → out_of_range weight ≡ false
    → (set_weight now weight v).0.weight ≡ to_ℕ weight
unfolding set_weight
set_weight-weight now weight v h = ground arith

-- 100 - weight stays in range.
pub rest_in_range :
    (weight : ℤ)
    → out_of_range weight ≡ false
    → (out_of_range (pos 100 -ℤ weight) ≡ false) × (to_ℕ weight + to_ℕ (pos 100 -ℤ weight) ≡ 100)
unfolding ◌-ℤ◌
rest_in_range (pos n) h = ground arith
rest_in_range (negsuc n) h = ground arith

overwrite-weight : (now : Time) (v r : TrafficVariant) → (overwrite now v r).weight ≡ v.weight
unfolding overwrite
overwrite-weight now v r = refl

module _ (E : Oracle) (p id : Uuid) (weight : ℤ) (rows : List TrafficVariant)
    (u : HasUniqueIds rows) where
  abbrev Split : World → Type 0
  Split w = IsSplit id (to_ℕ weight) rows w.variants

  abbrev Anything : World → Type 0
  Anything _ = Unit

  after : {A : Type 0} {m : M A} → Silent m → Hoare Split m (λ _. Split) Anything
  after h =
      Hoare-silent (record { at = λ s q. subst (IsSplit id (to_ℕ weight) rows) (sym s.variants) q })
        (λ w q. tt) h

  both_written :
      {w : World} (now t1 : Time) (canary stable : TrafficVariant)
      → out_of_range weight ≡ false
      → Has canary (rows_of id rows) × (canary.variant_name ≡ "canary")
      → Has stable (rows_of id rows) × (stable.variant_name ≡ "stable")
      → Updated E
          (set_weight now (pos 100 -ℤ weight) stable).0
          (update_rows t1 (set_weight now weight canary).0 rows)
          w
      → Split w
  both_written {w} now t1 canary stable range is_canary is_stable d =
      let canary' : TrafficVariant = (set_weight now weight canary).0 in
      let stable' : TrafficVariant = (set_weight now (pos 100 -ℤ weight) stable).0 in
      let c_id : canary'.id ≡ canary.id = set_weight-id now weight canary in
      let s_id : stable'.id ≡ stable.id = set_weight-id now (pos 100 -ℤ weight) stable in
      let c_row : Has canary rows = (Has-rows_of canary id rows is_canary.0).0 in
      let s_row : Has stable rows = (Has-rows_of stable id rows is_stable.0).0 in
      let differ : canary.id ≢ stable.id =
        ids_differ rows canary stable u c_row s_row
          (λ e. canary≢stable (sym is_canary.1 ∙ e ∙ is_stable.1)) in
      let rows' : List TrafficVariant = update_rows d.now stable' (update_rows t1 canary' rows) in
      let (c_found, s_found, rest) =
        two_updates t1 d.now canary' stable' canary stable rows (λ e. differ (sym c_id ∙ e ∙ s_id))
          (row_at rows c_id ∙ row_by_id-Has canary rows u c_row)
          (row_at rows s_id ∙ row_by_id-Has stable rows u s_row) in
      let c_weight : canary'.weight ≡ to_ℕ weight = set_weight-weight now weight canary range in
      let s_weight : stable'.weight ≡ to_ℕ (pos 100 -ℤ weight) =
        set_weight-weight now (pos 100 -ℤ weight) stable (rest_in_range weight range).0 in
      subst (IsSplit id (to_ℕ weight) rows) (sym d.table) (record {
        canary = canary;
        stable = stable;
        canary_before = is_canary;
        stable_before = is_stable;
        canary_after = overwrite t1 canary' canary;
        stable_after = overwrite d.now stable' stable;
        canary_found = row_at rows' (sym c_id) ∙ c_found;
        stable_found = row_at rows' (sym s_id) ∙ s_found;
        canary_weight = overwrite-weight t1 canary' canary ∙ c_weight;
        shares = omega (
          arith,
          overwrite-weight t1 canary' canary,
          overwrite-weight d.now stable' stable,
          c_weight,
          s_weight,
          (rest_in_range weight range).1,
        );
        others = λ other nc ns. rest other (λ e. nc (e ∙ c_id)) (λ e. ns (e ∙ s_id));
      })

  update_lem : Hoare (VariantsAre rows) (update_canary_weight E p id weight) (λ _. Split) Anything
  unfolding update_canary_weight
  update_lem =
      Hoare-raise_if (λ w q. tt) (out_of_range weight) _
        λ range.
          Hoare-bind (Hoare-weaken (λ w q. q) (λ _ w q. q) (λ w q. tt) (get_config_lem E rows p id))
            λ c. Hoare-fact λ loaded.
              Hoare-or_raise (λ w q. tt) _ (last_named "canary" none c.variants)
                λ canary is_canary.
                  Hoare-bind
                    (Hoare-silent (VariantsAre-stable rows) (λ w q. tt) (Silent-time_now E))
                    λ now.
                      Hoare-deref (λ w q. tt) (last_named "stable" none c.variants)
                        λ stable is_stable.
                          Hoare-bind
                            (Hoare-weaken (λ w q. q) (λ _ w q. q) (λ w q. tt)
                              (variant_update_lem E rows (set_weight now weight canary).0))
                            λ _. Hoare-Updated _ rows λ t1 row found.
                              Hoare-bind
                                (Hoare-weaken (λ w q. q)
                                  (λ _ w d.
                                    both_written now t1 canary stable range
                                      (last_named-Has "canary" _ canary
                                        (ap (last_named "canary" none) (sym loaded.1) ∙ is_canary))
                                      (last_named-Has "stable" _ stable
                                        (ap (last_named "stable" none) (sym loaded.1) ∙ is_stable))
                                      d)
                                  (λ w q. tt) (variant_update_lem E _ _))
                                λ _.
                                  Hoare-bind
                                    (after (Silent-ignore _ (Silent-sync_ai_gateway_route E c)))
                                    λ _. after (Silent-get_config E p id)

-- If UpdateCanaryWeight returns a configuration, then the canary of the configuration now has the
-- weight that was asked for, it and the stable variant share exactly 100, and no other row of the
-- table has changed. (Identifiers are unique, as the primary key says.)
pub update_canary_weight_splits :
    (E : Oracle) (project_id config_id : Uuid) (weight : ℤ) (w : World) (config : TrafficConfig)
    → HasUniqueIds w.variants
    → (update_canary_weight E project_id config_id weight w).0 ≡ ok config
    → IsSplit config_id
        (to_ℕ weight)
        w.variants
        (update_canary_weight E project_id config_id weight w).1.variants
update_canary_weight_splits E p id weight w config u e =
    returned (update_lem E p id weight w.variants u) w refl config e
