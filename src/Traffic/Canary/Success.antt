-- ===== src/Traffic/Canary/Success.antt =====
-- UpdateCanaryWeight over a database that answers.
use model_registry_service.Base.{
  String, ◌≡◌, ◌≢◌, refl, sym, ◌∙◌, ap, false, none, some, List, [], ◌∷◌, arith, ltb, ℤ, pos, to_ℕ,
  ◌-ℤ◌, All, Bool-cases, inl, inr,
}
use model_registry_service.Domain.Result.{ok}
use model_registry_service.Domain.Traffic.{
  Uuid, Time, TrafficVariant, TrafficConfig, out_of_range, set_weight,
}
use model_registry_service.Store.World.{Oracle, World}
use model_registry_service.Store.Silent.{SameTables-refl, At}
use model_registry_service.Store.Hoare.{Hoare, Hoare-bind, Hoare-fact, Hoare-weaken}
use model_registry_service.Store.Reliable.{
  Answers, Never, passes, finds, derefs, from_some, succeeds,
}
use model_registry_service.Store.Reliable.Calls.{clock, variant_update-Fits}
use model_registry_service.Store.Variants.{
  rows_of, row_by_id, clashes, lacks_text, overwrite, update_rows,
}
use model_registry_service.Store.Variants.Rows.{
  Has, HasUniqueIds, Has-rows_of, row_by_id-Has, ids_differ,
}
use model_registry_service.Store.Variants.Writes.{Fits}
use model_registry_service.Store.Variants.Lookup.{row_by_id-update_rows_ne}
use model_registry_service.Traffic.Route.Calm.{IsPlaced, get_config-loaded, afterwards}
use model_registry_service.Traffic.Canary.{last_named, update_canary_weight}
use model_registry_service.Traffic.Canary.Promotion.{last_named-Has, canary≢stable, set_weight-id}
use model_registry_service.Traffic.Canary.Weights.{
  IsSplit, update_canary_weight_splits, rest_in_range, set_weight-weight,
}

-- Every row could be written again: its texts are not empty, its weight fits the column, and no other
-- row of its configuration has its name.
abbrev pub AllFit : Oracle → List TrafficVariant → Type 0
AllFit E rows = (v : TrafficVariant) → Has v rows → Fits E v.traffic_config_id v rows

pub All-of_Has :
    (P : TrafficVariant → Type 0) (rows : List TrafficVariant)
    → ((r : TrafficVariant) → Has r rows → P r)
    → All P rows
All-of_Has P [] h = tt
All-of_Has P (r ∷ rows) h = (h r (inl refl), All-of_Has P rows (λ x m. h x (inr m)))

pub clashes-update_rows :
    (self config : Uuid) (name : String) (now : Time) (v : TrafficVariant)
    (rows : List TrafficVariant)
    → All (λ r. r.id ≡ v.id → r.variant_name ≡ v.variant_name) rows
    → clashes self config name (update_rows now v rows) ≡ clashes self config name rows
unfolding clashes update_rows overwrite
clashes-update_rows self config name now v [] h = refl
clashes-update_rows self config name now v (r ∷ rows) h =
    ground (arith, clashes-update_rows self config name now v rows h.1)

weighted_texts :
    (E : Oracle) (now : Time) (weight : ℤ) (v : TrafficVariant)
    → let v' = (set_weight now weight v).0 in
      (lacks_text v' ≡ lacks_text v) × (v'.variant_name ≡ v.variant_name)
unfolding set_weight
weighted_texts E now weight v = elim (Bool-cases (out_of_range weight)) [
  | inl e ↦ rw e (refl, refl)
  | inr e ↦ rw e (refl, refl)
]

in_range : (weight : ℤ) → out_of_range weight ≡ false → ltb 100 (to_ℕ weight) ≡ false
in_range weight h = ground arith

-- A row of the table under a new weight still meets the constraints.
weighted-Fits :
    (E : Oracle) (now : Time) (weight : ℤ) (v : TrafficVariant) (rows : List TrafficVariant)
    → out_of_range weight ≡ false
    → Fits E v.traffic_config_id v rows
    → Fits E v.traffic_config_id (set_weight now weight v).0 rows
weighted-Fits E now weight v rows range fits =
    let (texts, name) = weighted_texts E now weight v in
    record {
      texts = texts ∙ fits.texts;
      weight = ap (ltb 100) (set_weight-weight now weight v range) ∙ in_range weight range;
      name = ap2_clashes (set_weight-id now weight v) name ∙ fits.name;
    }
  where
    ap2_clashes :
        {i j : Uuid} {m n : String}
        → i ≡ j
        → m ≡ n
        → clashes i v.traffic_config_id m rows ≡ clashes j v.traffic_config_id n rows
    ap2_clashes e f = cc

module _ (E : Oracle) (up : Answers E) (t : World) (p id : Uuid) (weight : ℤ)
    (range : out_of_range weight ≡ false) (placed : IsPlaced p id t) (u : HasUniqueIds t.variants)
    (fit : AllFit E t.variants) (canary stable : TrafficVariant)
    (is_canary : last_named "canary" none (rows_of id t.variants) ≡ some canary)
    (is_stable : last_named "stable" none (rows_of id t.variants) ≡ some stable) where
  abbrev rows : List TrafficVariant
  rows = t.variants

  abbrev with_canary : Time → Time → List TrafficVariant
  with_canary now t1 = update_rows t1 (set_weight now weight canary).0 rows

  named_canary : Has canary rows × (canary.variant_name ≡ "canary")
  named_canary =
      let (h, n) = last_named-Has "canary" (rows_of id rows) canary is_canary in
      ((Has-rows_of canary id rows h).0, n)

  named_stable : Has stable rows × (stable.variant_name ≡ "stable")
  named_stable =
      let (h, n) = last_named-Has "stable" (rows_of id rows) stable is_stable in
      ((Has-rows_of stable id rows h).0, n)

  differ : canary.id ≢ stable.id
  differ =
      ids_differ rows canary stable u named_canary.0 named_stable.0
        (λ e. canary≢stable (sym named_canary.1 ∙ e ∙ named_stable.1))

  canary_found : (now : Time) → row_by_id (set_weight now weight canary).0.id rows ≡ some canary
  canary_found now =
      ap (λ i. row_by_id i rows) (set_weight-id now weight canary)
      ∙ row_by_id-Has canary rows u named_canary.0

  stable_found :
      (now t1 : Time)
      → row_by_id (set_weight now (pos 100 -ℤ weight) stable).0.id (with_canary now t1)
        ≡ some stable
  stable_found now t1 =
      ap (λ i. row_by_id i (with_canary now t1)) (set_weight-id now (pos 100 -ℤ weight) stable)
      ∙ row_by_id-update_rows_ne stable.id t1 (set_weight now weight canary).0 rows
          (λ e. differ (sym (e ∙ set_weight-id now weight canary)))
      ∙ row_by_id-Has stable rows u named_stable.0

  same_names :
      (now : Time)
      → All
          (λ r.
            r.id ≡ (set_weight now weight canary).0.id
            → r.variant_name ≡ (set_weight now weight canary).0.variant_name)
          rows
  same_names now = All-of_Has _ rows λ r has e.
      let one : r ≡ canary =
        same_row r canary (row_by_id-Has r rows u has) (row_by_id-Has canary rows u named_canary.0)
          (e ∙ set_weight-id now weight canary) in
      ap (λ (x : TrafficVariant). x.variant_name) one ∙ sym (weighted_texts E now weight canary).1
    where
      same_row :
          (a b : TrafficVariant)
          → row_by_id a.id rows ≡ some a
          → row_by_id b.id rows ≡ some b
          → a.id ≡ b.id
          → a ≡ b
      same_row a b h k e = cc

  stable-Fits :
      (now t1 : Time)
      → Fits E stable.traffic_config_id
          (set_weight now (pos 100 -ℤ weight) stable).0
          (with_canary now t1)
  stable-Fits now t1 =
      let fits =
        weighted-Fits E now (pos 100 -ℤ weight) stable rows (rest_in_range weight range).0
          (fit stable named_stable.0) in
      record {
        texts = fits.texts;
        weight = fits.weight;
        name =
            clashes-update_rows _ stable.traffic_config_id _ t1 (set_weight now weight canary).0
              rows (same_names now)
            ∙ fits.name;
      }

  update_total : Hoare (At t) (update_canary_weight E p id weight) (λ _ _. Unit) Never
  unfolding update_canary_weight
  update_total = Hoare-bind (passes _ _ range) λ _.
      Hoare-bind (get_config-loaded E up t p id placed) λ c. Hoare-fact λ same.
        finds _ _ _ canary
          (ap (λ (x : TrafficConfig). last_named "canary" none x.variants) same ∙ is_canary)
          (Hoare-bind (clock E up t) λ now.
            derefs _ _ stable
              (ap (λ (x : TrafficConfig). last_named "stable" none x.variants) same ∙ is_stable)
              (Hoare-bind
                (variant_update-Fits E up t (set_weight now weight canary).0 canary
                  (canary_found now)
                  (weighted-Fits E now weight canary rows range (fit canary named_canary.0)))
                λ _. from_some _ λ t1.
                  Hoare-bind
                    (variant_update-Fits E up (record t { variants = with_canary now t1 })
                      (set_weight now (pos 100 -ℤ weight) stable).0 stable (stable_found now t1)
                      (stable-Fits now t1))
                    λ _. from_some _ λ t2.
                      Hoare-weaken (λ w s. s) (λ _ _ _. tt) (λ w e. e)
                        (afterwards E up t p id placed c same _)))

-- If the database answers, the configuration, its service and its environment are in their
-- tables, the variants have unique identifiers, names that differ within a configuration, weights that
-- the column takes, and a KServe service and a revision that are not empty (an UPDATE sends an empty
-- text as NULL, which the columns refuse), and the configuration has a canary and a stable variant, then
-- UpdateCanaryWeight with a weight of 0 to 100 returns a configuration, whatever the cluster answers:
-- the canary has the weight, the stable variant the rest of 100, and no other row has changed.
pub update_canary_weight_succeeds :
    (E : Oracle) (w : World) (p id : Uuid) (weight : ℤ) (canary stable : TrafficVariant)
    → Answers E
    → out_of_range weight ≡ false
    → IsPlaced p id w
    → HasUniqueIds w.variants
    → AllFit E w.variants
    → last_named "canary" none (rows_of id w.variants) ≡ some canary
    → last_named "stable" none (rows_of id w.variants) ≡ some stable
    → (config : TrafficConfig) × ((update_canary_weight E p id weight w).0 ≡ ok config)
      × IsSplit id (to_ℕ weight) w.variants (update_canary_weight E p id weight w).1.variants
update_canary_weight_succeeds E w p id weight canary stable up range placed u fit is_canary
      is_stable =
    let (config, returned, _) =
      succeeds
        (update_total E up w p id weight range placed u fit canary stable is_canary is_stable) w
        (SameTables-refl w) in
    (config, returned, update_canary_weight_splits E p id weight w config u returned)
