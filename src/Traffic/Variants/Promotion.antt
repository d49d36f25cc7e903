-- ===== src/Traffic/Variants/Promotion.antt =====
-- PromoteVariant: what a call that returns has done.
use model_registry_service.Base.{
  ℕ, String, ◌≡◌, ◌≢◌, refl, sym, ◌∙◌, ap, subst, true, false, not, ◌&&◌, some, List, [], ◌∷◌, ◌==◌,
  arith, pos, str_eq, str_eq_iff,
}
use model_registry_service.Domain.Result.{ok}
use model_registry_service.Domain.Traffic.{
  Uuid, Time, TrafficVariant, TrafficConfig, VariantStatus, is_active, set_weight, deactivate,
  get_variant,
}
use model_registry_service.Store.World.{Oracle, World, M}
use model_registry_service.Store.Silent.{Silent, Silent-time_now, Silent-ignore}
use model_registry_service.Store.Hoare.{
  Hoare, IsStable, Hoare-bind, Hoare-silent, Hoare-weaken, Hoare-fact, Hoare-or_raise,
  Hoare-raise_if, Hoare-ignore, Hoare-pure, Hoare-if, returned,
}
use model_registry_service.Store.Variants.{rows_of, row_by_id, overwrite, update_rows}
use model_registry_service.Store.Variants.Rows.{
  Has, HasUniqueIds, Has-rows_of, row_by_id-Has, ids_differ,
}
use model_registry_service.Store.Variants.Writes.{
  VariantsAre, VariantsAre-stable, Updated, variant_update_lem, not-eq-false,
}
use model_registry_service.Store.Variants.Lookup.{
  two_updates, row_by_id-update_rows_ne, row_at, Hoare-Updated, Hoare-from,
}
use model_registry_service.Traffic.Route.Silent.{Silent-get_config, Silent-sync_ai_gateway_route}
use model_registry_service.Traffic.Route.Config.{get_config_lem}
use model_registry_service.Traffic.Canary.Promotion.{set_weight-id}
use model_registry_service.Traffic.Variants.{retire, retire_others, promote_variant}
use model_registry_service.Traffic.Variants.Sound.{get_variant-Has}

-- Between the two tables the variant of that name has become the stable one with a weight of 100, and
-- the stable one has got another name, no weight and the status inactive.
pub record IsPromoted (id : Uuid) (name : String) (rows rows' : List TrafficVariant) : Type 0 where
  pub variant : TrafficVariant
  pub stable : TrafficVariant
  pub variant_before :
      Has variant (rows_of id rows)
      × (variant.variant_name ≡ name)
      × (is_active variant.status ≡ true)
  pub stable_before : Has stable (rows_of id rows) × (stable.variant_name ≡ "stable")
  pub variant_after : TrafficVariant
  pub stable_after : TrafficVariant
  pub variant_found : row_by_id variant.id rows' ≡ some variant_after
  pub stable_found : row_by_id stable.id rows' ≡ some stable_after
  pub promoted :
      (variant_after.variant_name ≡ "stable")
      × (variant_after.weight ≡ 100)
      × (is_active variant_after.status ≡ true)
  pub retired : (stable_after.weight ≡ 0) × (stable_after.status ≡ VariantStatus.inactive)
  pub same_version :
      (variant_after.model_version_id ≡ variant.model_version_id)
      × (variant_after.kserve_isvc_name ≡ variant.kserve_isvc_name)

-- The row that the promotion writes.
promoted_row :
    (now t : Time) (v : TrafficVariant)
    → let r = overwrite t (set_weight now (pos 100) (record v { variant_name = "stable" })).0 v in
      (r.variant_name ≡ "stable")
      × (r.weight ≡ 100)
      × (r.status ≡ v.status)
      × (r.model_version_id ≡ v.model_version_id)
      × (r.kserve_isvc_name ≡ v.kserve_isvc_name)
unfolding overwrite set_weight
promoted_row now t v = (refl, refl, refl, refl, refl)

retired_row :
    (now t : Time) (name : String) (v : TrafficVariant)
    → let r = overwrite t (deactivate now (record v { variant_name = name })) v in
      (r.weight ≡ 0) × (r.status ≡ VariantStatus.inactive)
unfolding overwrite deactivate
retired_row now t name v = (refl, refl)

deactivate-id : (now : Time) (v : TrafficVariant) → (deactivate now v).id ≡ v.id
unfolding deactivate
deactivate-id now v = refl

not-eq : (a b c : ℕ) → (not (a == b) && not (a == c)) ≡ true → (b ≢ a) × (c ≢ a)
not-eq a b c h = ground arith

abbrev Anything : World → Type 0
Anything _ = Unit

module _ (E : Oracle) (variant stable : TrafficVariant) where
  -- The two rows have not been touched yet.
  abbrev Both : List TrafficVariant → Type 0
  Both rows = (row_by_id variant.id rows ≡ some variant) × (row_by_id stable.id rows ≡ some stable)

  abbrev BothIn : World → Type 0
  BothIn w = Both w.variants

  both_stable : IsStable BothIn
  both_stable = record { at = λ s q. subst Both (sym s.variants) q }

  Both-kept :
      (t now : Time) (v : TrafficVariant) (rows : List TrafficVariant)
      → variant.id ≢ v.id
      → stable.id ≢ v.id
      → Both rows
      → Both (update_rows t (deactivate now v) rows)
  Both-kept t now v rows nv ns (a, b) = (
    row_by_id-update_rows_ne variant.id t (deactivate now v) rows
          (λ e. nv (e ∙ deactivate-id now v))
        ∙ a,
    row_by_id-update_rows_ne stable.id t (deactivate now v) rows (λ e. ns (e ∙ deactivate-id now v))
        ∙ b,
  )

  retire_keeps :
      (v : TrafficVariant)
      → variant.id ≢ v.id
      → stable.id ≢ v.id
      → Hoare BothIn (retire E v) (λ _. BothIn) Anything
  unfolding retire
  retire_keeps v nv ns =
      Hoare-bind (Hoare-silent both_stable (λ w q. tt) (Silent-time_now E)) λ now.
        Hoare-ignore (λ w q. tt)
          (record {
            at = λ w q.
                (Hoare-weaken {P = VariantsAre w.variants} {F = VariantsAre w.variants}
                    {Q = λ _. Updated E (deactivate now v) w.variants} (λ w h. h)
                    (λ _ w' d. subst Both (sym d.table) (Both-kept d.now now v w.variants nv ns q))
                    (λ w' h. subst Both (sym h) q)
                    (variant_update_lem E w.variants (deactivate now v))).at
                  w refl;
          })

  retire_others_keeps :
      (vs : List TrafficVariant)
      → Hoare BothIn (retire_others E variant stable vs) (λ _. BothIn) Anything
  unfolding retire_others
  retire_others_keeps [] = Hoare-pure _ (λ w q. q)
  retire_others_keeps (v ∷ vs) =
      Hoare-bind
        (Hoare-if (λ w q. tt) _
          (λ e. let (nv, ns) = not-eq v.id variant.id stable.id e in retire_keeps v nv ns)
          (λ e. Hoare-pure _ (λ w q. q)))
        λ _. retire_others_keeps vs

module _ (E : Oracle) (p id : Uuid) (name : String) (rows : List TrafficVariant)
    (u : HasUniqueIds rows) where
  abbrev Promoted : World → Type 0
  Promoted w = IsPromoted id name rows w.variants

  after : {A : Type 0} {m : M A} → Silent m → Hoare Promoted m (λ _. Promoted) Anything
  after h =
      Hoare-silent (record { at = λ s q. subst (IsPromoted id name rows) (sym s.variants) q })
        (λ w q. tt) h

  both_written :
      {w : World} (now t1 : Time) (old_name : String) (variant stable : TrafficVariant)
      (rows1 : List TrafficVariant)
      → Has variant (rows_of id rows)
        × (variant.variant_name ≡ name)
        × (is_active variant.status ≡ true)
      → Has stable (rows_of id rows) × (stable.variant_name ≡ "stable")
      → str_eq name "stable" ≡ false
      → (row_by_id variant.id rows1 ≡ some variant) × (row_by_id stable.id rows1 ≡ some stable)
      → Updated E
          (set_weight now (pos 100) (record variant { variant_name = "stable" })).0
          (update_rows t1 (deactivate now (record stable { variant_name = old_name })) rows1)
          w
      → Promoted w
  both_written {w} now t1 old_name variant stable rows1 is_variant is_stable other (at_v, at_s) d =
      let v' : TrafficVariant =
        (set_weight now (pos 100) (record variant { variant_name = "stable" })).0 in
      let s' : TrafficVariant = deactivate now (record stable { variant_name = old_name }) in
      let v_id : v'.id ≡ variant.id =
        set_weight-id now (pos 100) (record variant { variant_name = "stable" }) in
      let s_id : s'.id ≡ stable.id =
        deactivate-id now (record stable { variant_name = old_name }) in
      let v_row : Has variant rows = (Has-rows_of variant id rows is_variant.0).0 in
      let s_row : Has stable rows = (Has-rows_of stable id rows is_stable.0).0 in
      let differ : stable.id ≢ variant.id =
        ids_differ rows stable variant u s_row v_row (λ e.
          cc (other, (str_eq_iff name "stable").1 (sym is_variant.1 ∙ sym e ∙ is_stable.1))) in
      let rows' : List TrafficVariant = update_rows d.now v' (update_rows t1 s' rows1) in
      let (s_found, v_found, _) =
        two_updates t1 d.now s' v' stable variant rows1 (λ e. differ (sym s_id ∙ e ∙ v_id))
          (row_at rows1 s_id ∙ at_s) (row_at rows1 v_id ∙ at_v) in
      let (is_named, full, status, version, service) = promoted_row now d.now variant in
      subst (IsPromoted id name rows) (sym d.table) (record {
        variant = variant;
        stable = stable;
        variant_before = is_variant;
        stable_before = is_stable;
        variant_after = overwrite d.now v' variant;
        stable_after = overwrite t1 s' stable;
        variant_found = row_at rows' (sym v_id) ∙ v_found;
        stable_found = row_at rows' (sym s_id) ∙ s_found;
        promoted = (is_named, full, ap is_active status ∙ is_variant.2);
        retired = retired_row now t1 old_name stable;
        same_version = (version, service);
      })

  promote_lem : Hoare (VariantsAre rows) (promote_variant E p id name) (λ _. Promoted) Anything
  unfolding promote_variant
  promote_lem =
      Hoare-bind (Hoare-weaken (λ w q. q) (λ _ w q. q) (λ w q. tt) (get_config_lem E rows p id))
        λ c. Hoare-fact λ loaded.
          Hoare-raise_if (λ w q. tt) (str_eq name "stable") _
            λ other.
              Hoare-or_raise (λ w q. tt) _ (get_variant c name)
                λ variant found.
                  Hoare-raise_if (λ w q. tt) (not (is_active variant.status)) _
                    λ active.
                      Hoare-or_raise (λ w q. tt) _ (get_variant c "stable")
                        λ stable is_stable.
                          Hoare-bind
                            (Hoare-silent (VariantsAre-stable rows) (λ w q. tt) (Silent-time_now E))
                            λ unix.
                              Hoare-bind
                                (Hoare-silent (VariantsAre-stable rows) (λ w q. tt)
                                  (Silent-time_now E))
                                λ now.
                                  let (v_listed, v_name) = get_variant-Has c name variant found in
                                  let (s_listed, s_name) =
                                    get_variant-Has c "stable" stable is_stable in
                                  let v_row : Has variant (rows_of id rows) =
                                    subst (Has variant) loaded.1 v_listed in
                                  let s_row : Has stable (rows_of id rows) =
                                    subst (Has stable) loaded.1 s_listed in
                                  Hoare-bind
                                    (Hoare-weaken
                                      (λ w q. subst (Both E variant stable) (sym q) (
                                        row_by_id-Has variant rows u
                                            (Has-rows_of variant id rows v_row).0,
                                        row_by_id-Has stable rows u
                                            (Has-rows_of stable id rows s_row).0,
                                      ))
                                      (λ _ w q. q) (λ w q. q)
                                      (retire_others_keeps E variant stable c.variants))
                                    λ _. Hoare-from (Both E variant stable) λ rows1 both.
                                      Hoare-bind
                                        (Hoare-weaken (λ w q. q) (λ _ w q. q) (λ w q. tt)
                                          (variant_update_lem E rows1 _))
                                        λ _. Hoare-Updated _ rows1 λ t1 row found1.
                                          Hoare-bind
                                            (Hoare-weaken (λ w q. q)
                                              (λ _ w d.
                                                both_written now t1 _ variant stable rows1
                                                  (v_row, v_name, not-eq-false _ active)
                                                  (s_row, s_name) other both d)
                                              (λ w q. tt) (variant_update_lem E _ _))
                                            λ _.
                                              Hoare-bind
                                                (after (
                                                  Silent-ignore _
                                                    (Silent-sync_ai_gateway_route E c)))
                                                λ _. after (Silent-get_config E p id)

-- If PromoteVariant returns a configuration, then an active variant of the name asked for is now
-- the one named "stable", still active, with a weight of 100, the same model version and the same
-- KServe service; and the variant that was named "stable" is inactive without weight. Nothing is said
-- of the other variants, since the errors of their updates are dropped.
-- (Identifiers are unique, as the primary key says.)
pub promote_variant_promotes :
    (E : Oracle) (project_id config_id : Uuid) (name : String) (w : World) (config : TrafficConfig)
    → HasUniqueIds w.variants
    → (promote_variant E project_id config_id name w).0 ≡ ok config
    → IsPromoted config_id name w.variants
        (promote_variant E project_id config_id name w).1.variants
promote_variant_promotes E p id name w config u e =
    returned (promote_lem E p id name w.variants u) w refl config e
