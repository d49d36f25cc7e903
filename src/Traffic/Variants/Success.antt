-- ===== src/Traffic/Variants/Success.antt =====
-- PromoteVariant over a database that answers.
use model_registry_service.Base.{
  ℕ, String, ◌≡◌, ◌≢◌, refl, sym, ◌∙◌, ap, subst, true, false, not, some, List, Bool-cases, inl,
  inr, str_eq, str_eq_iff, ◌<>◌, decimal, pos, ◌==◌, All,
}
use model_registry_service.Domain.Result.{ok}
use model_registry_service.Domain.Traffic.{
  Uuid, Time, TrafficVariant, TrafficConfig, is_active, deactivate, set_weight, find_variant,
  get_variant,
}
use model_registry_service.Store.World.{Oracle, World, ◌>>◌, ignore}
use model_registry_service.Store.Variants.{variant_update}
use model_registry_service.Store.Silent.{At, SameTables-refl}
use model_registry_service.Store.Hoare.{Hoare, Hoare-bind, Hoare-weaken, Hoare-fact}
use model_registry_service.Store.Reliable.{Answers, Never, passes, finds, from_some, succeeds}
use model_registry_service.Store.Reliable.Calls.{clock, variant_update-Fits}
use model_registry_service.Store.Variants.{rows_of, row_by_id, clashes, update_rows}
use model_registry_service.Store.Variants.Rows.{
  Has, HasUniqueIds, Has-rows_of, row_by_id-Has, ids_differ,
}
use model_registry_service.Store.Variants.Lookup.{row_by_id-update_rows_ne}
use model_registry_service.Traffic.Route.{get_config, sync_ai_gateway_route}
use model_registry_service.Traffic.Route.Calm.{IsPlaced, loaded, get_config-loaded, afterwards}
use model_registry_service.Traffic.Canary.Success.{AllFit, All-of_Has}
use model_registry_service.Traffic.Variants.{promote_variant, retire_others}
use model_registry_service.Traffic.Variants.Sound.{find_variant-Has}
use model_registry_service.Traffic.Variants.Retiring.{
  IsNamed, Ready, InLoop, retire_others-InLoop, retire_others-IsIdle,
}
use model_registry_service.Traffic.Variants.Idle.{
  IsIdle, IsIdle-rewritten, IsIdle-update_rows, IsIdle-elsewhere, equal, differ,
}
use model_registry_service.Traffic.Variants.OldNames.{begins_with_o, renamed_away}
use model_registry_service.Traffic.Variants.Promotion.{IsPromoted, promote_variant_promotes}

-- Each of the variants before, but the promoted one, has no weight in the table after.
abbrev pub AreRetired : Uuid → List TrafficVariant → List TrafficVariant → Type 0
AreRetired promoted before after = All (λ v. v.id ≢ promoted → IsIdle v after) before

one_name :
    (v : TrafficVariant) (rows : List TrafficVariant)
    → HasUniqueIds rows
    → Has v rows
    → IsNamed v rows
one_name v rows u has = All-of_Has _ rows λ r h e. same r (row_by_id-Has r rows u h) e
  where
    same :
        (r : TrafficVariant)
        → row_by_id r.id rows ≡ some r
        → r.id ≡ v.id
        → r.variant_name ≡ v.variant_name
    same r h e = let k = row_by_id-Has v rows u has in cc

module _ (E : Oracle) (up : Answers E) (t : World) (p id : Uuid) (name : String)
    (other : str_eq name "stable" ≡ false) (placed : IsPlaced p id t) (u : HasUniqueIds t.variants)
    (fit : AllFit E t.variants) (variant stable : TrafficVariant)
    (is_variant : find_variant name (rows_of id t.variants) ≡ some variant)
    (active : is_active variant.status ≡ true)
    (is_stable : find_variant "stable" (rows_of id t.variants) ≡ some stable)
    (free : (n : ℕ)
      → clashes stable.id stable.traffic_config_id ("old-stable-" <> decimal n) t.variants
        ≡ false) where
  abbrev rows : List TrafficVariant
  rows = t.variants

  placed_variant :
      (v : TrafficVariant) (n : String)
      → find_variant n (rows_of id rows) ≡ some v
      → Has v rows × (v.traffic_config_id ≡ id) × (v.variant_name ≡ n)
  placed_variant v n h =
      let (has, named) = find_variant-Has n (rows_of id rows) v h in
      let (row, config) = Has-rows_of v id rows has in (row, config, named)

  at_first : Ready E rows variant stable rows
  at_first = record {
    named = λ v h. one_name v rows u h;
    fresh = λ v h. (fit v h).name;
    found = λ v h. (v, row_by_id-Has v rows u h, refl);
    variant_row = row_by_id-Has variant rows u (placed_variant variant name is_variant).0;
    stable_row = row_by_id-Has stable rows u (placed_variant stable "stable" is_stable).0;
    free = free;
  }

  two_variants : variant.id ≢ stable.id
  two_variants =
      let (v_row, _, v_name) = placed_variant variant name is_variant in
      let (s_row, _, s_name) = placed_variant stable "stable" is_stable in
      ids_differ rows variant stable u v_row s_row
        λ e. let same = (str_eq_iff name "stable").1 (sym v_name ∙ e ∙ s_name) in cc (same, other)

  only_stable :
      (rows' : List TrafficVariant)
      → Ready E rows variant stable rows'
      → variant.traffic_config_id ≡ stable.traffic_config_id
      → stable.variant_name ≡ "stable"
      → clashes stable.id variant.traffic_config_id "stable" rows' ≡ false
  only_stable rows' r c n = cc (c, n, r.fresh stable (placed_variant stable "stable" is_stable).0)

  -- The stable variant as it is retired, and the promoted one.
  abbrev old : Time → Time → TrafficVariant
  old unix now = deactivate now (record stable { variant_name = "old-stable-" <> decimal unix })

  abbrev new : Time → TrafficVariant
  new now = (set_weight now (pos 100) (record variant { variant_name = "stable" })).0

  abbrev Ends : TrafficVariant → World → Type 0
  Ends x w = IsIdle x w.variants

  -- The last two updates, and what follows them.
  swap :
      (x : TrafficVariant)
      → x.id ≢ variant.id
      → (c : TrafficConfig) → c ≡ loaded E up t p id placed
      → (unix now : Time) (rows' : List TrafficVariant) → Ready E rows variant stable rows'
      → ((at : Time) → IsIdle x (update_rows at (old unix now) rows'))
      → Hoare
          (At (record t { variants = rows' }))
          (variant_update E (old unix now)
            >> (variant_update E (new now)
                >> (ignore (sync_ai_gateway_route E c) >> get_config E p id)))
          (λ _. Ends x)
          Never
  unfolding deactivate set_weight
  swap x nx c same unix now rows' r idle =
      let (v_row, v_config, v_name) = placed_variant variant name is_variant in
      let (s_row, s_config, s_name) = placed_variant stable "stable" is_stable in
      Hoare-bind
        (variant_update-Fits E up (record t { variants = rows' }) (old unix now) stable r.stable_row
          (record { texts = (fit stable s_row).texts; weight = refl; name = r.free unix }))
        λ _. from_some _ λ t1.
          Hoare-bind
            (variant_update-Fits E up (record t { variants = update_rows t1 (old unix now) rows' })
              (new now) variant
              (row_by_id-update_rows_ne variant.id t1 (old unix now) rows' two_variants
                ∙ r.variant_row)
              (record {
                texts = (fit variant v_row).texts;
                weight = refl;
                name =
                    renamed_away variant.id variant.traffic_config_id t1 (old unix now) rows'
                      (only_stable rows' r (v_config ∙ sym s_config) s_name)
                      (begins_with_o (decimal unix));
              }))
            λ _. from_some _ λ t2.
              Hoare-weaken (λ w s. s)
                (λ _ w s. subst (IsIdle x) (sym s.variants) (
                  IsIdle-elsewhere t2 (new now) x (update_rows t1 (old unix now) rows') nx
                    (idle t1)))
                (λ w e. e) (afterwards E up t p id placed c same _)

  in_table : (v : TrafficVariant) → Has v (loaded E up t p id placed).variants → Has v rows
  in_table v has = (Has-rows_of v id rows has).0

  -- Whatever the loop leaves of another variant, the end is that it has no weight.
  promote_total :
      (x : TrafficVariant) (P : List TrafficVariant → Type 0)
      → x.id ≢ variant.id
      → Hoare
          (InLoop E up t variant stable (λ v has. (fit v has).texts) (λ _. Unit))
          (retire_others E variant stable (rows_of id rows))
          (λ _. InLoop E up t variant stable (λ v has. (fit v has).texts) P)
          Never
      → ((at unix now : Time) (rows' : List TrafficVariant)
          → P rows'
          → IsIdle x (update_rows at (old unix now) rows'))
      → Hoare (At t) (promote_variant E p id name) (λ _. Ends x) Never
  unfolding promote_variant deactivate set_weight get_variant
  promote_total x P nx loop closes = Hoare-bind (get_config-loaded E up t p id placed) λ c.
      Hoare-fact λ same. Hoare-bind (passes _ _ other) λ _.
        finds _ _ _ variant
          (ap (λ (x : TrafficConfig). find_variant name x.variants) same ∙ is_variant)
          (Hoare-bind (passes _ _ (ap not active)) λ _.
            finds _ _ _ stable
              (ap (λ (x : TrafficConfig). find_variant "stable" x.variants) same ∙ is_stable)
              (Hoare-bind (clock E up t) λ unix. Hoare-bind (clock E up t) λ now.
                Hoare-bind
                  (Hoare-weaken (λ w s. (rows, (s, (at_first, tt)))) (λ _ w s. s) (λ w e. e)
                    (subst
                      (λ (vs : List TrafficVariant).
                        Hoare
                          (InLoop E up t variant stable (λ v has. (fit v has).texts) (λ _. Unit))
                          (retire_others E variant stable vs)
                          (λ _. InLoop E up t variant stable (λ v has. (fit v has).texts) P) Never)
                      (sym (ap (λ (y : TrafficConfig). y.variants) same)) loop))
                  λ _. from_some _ λ rows'.
                    Hoare-fact
                      λ r. swap x nx c same unix now rows' r.0 λ at. closes at unix now rows' r.1))

  -- A variant of the configuration that is not the promoted one has no weight in the end.
  promote_idles :
      (x : TrafficVariant)
      → Has x (rows_of id rows)
      → x.id ≢ variant.id
      → Hoare (At t) (promote_variant E p id name) (λ _. Ends x) Never
  unfolding deactivate
  promote_idles x has nx = elim (Bool-cases (x.id == stable.id)) [
    | inl e ↦
        promote_total x (λ _. Unit) nx
          (retire_others-InLoop E up t variant stable (λ v has. (fit v has).texts) (λ _. Unit)
            (λ _ _ _ _ _. tt) _ in_table)
          λ at unix now rows' _.
            IsIdle-rewritten at (old unix now) x rows' (sym (equal x.id stable.id e)) refl
    | inr e ↦
        promote_total x (IsIdle x) nx
          (retire_others-IsIdle E up t variant stable (λ v has. (fit v has).texts) x _ has nx
            (differ x.id stable.id e) in_table)
          λ at unix now rows' h. IsIdle-update_rows at (old unix now) x rows' refl h
  ]

-- If the database answers, the configuration, its service and its environment are in their tables,
-- the variants have unique identifiers, names that differ within a configuration, weights that the
-- column takes, and a KServe service and a revision that are not empty (an UPDATE sends an empty text
-- as NULL, which the columns refuse), the name asked for is not "stable" and names an active variant,
-- there is a stable variant, and no row has the name that the stable one would get at any time, then
-- PromoteVariant returns a configuration, whatever the cluster answers: the variant has taken the
-- place of the stable one with a weight of 100, and every other variant of the configuration has
-- a weight of 0.
pub promote_variant_succeeds :
    (E : Oracle) (w : World) (p id : Uuid) (name : String) (variant stable : TrafficVariant)
    → Answers E
    → str_eq name "stable" ≡ false
    → IsPlaced p id w
    → HasUniqueIds w.variants
    → AllFit E w.variants
    → find_variant name (rows_of id w.variants) ≡ some variant
    → is_active variant.status ≡ true
    → find_variant "stable" (rows_of id w.variants) ≡ some stable
    → ((n : ℕ)
        → clashes stable.id stable.traffic_config_id ("old-stable-" <> decimal n) w.variants
          ≡ false)
    → (config : TrafficConfig) × ((promote_variant E p id name w).0 ≡ ok config)
      × IsPromoted id name w.variants (promote_variant E p id name w).1.variants
      × AreRetired variant.id (rows_of id w.variants) (promote_variant E p id name w).1.variants
promote_variant_succeeds E w p id name variant stable up other placed u fit is_variant active
      is_stable free =
    let (config, returned, _) =
      succeeds
        (promote_idles E up w p id name other placed u fit variant stable is_variant active
          is_stable free stable
          (find_variant-Has "stable" (rows_of id w.variants) stable is_stable).0
          (λ e.
            two_variants E up w p id name other placed u fit variant stable is_variant active
              is_stable free (sym e)))
        w (SameTables-refl w) in
    (
      config,
      returned,
      promote_variant_promotes E p id name w config u returned,
      All-of_Has _ (rows_of id w.variants) λ v has nv.
          let (_, _, idle) =
            succeeds
              (promote_idles E up w p id name other placed u fit variant stable is_variant active
                is_stable free v has nv)
              w (SameTables-refl w) in
          idle,
    )
