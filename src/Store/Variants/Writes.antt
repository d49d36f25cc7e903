-- ===== src/Store/Variants/Writes.antt =====
-- What the statements on the table traffic_variant do, on every branch.
use model_registry_service.Base.{
  ◌≡◌, refl, sym, ◌∙◌, subst, Bool, true, false, not, some, List, [], ◌∷◌, ◌++◌, ltb, keep, ◌==◌,
}
use model_registry_service.Domain.Traffic.{Uuid, Time, TrafficVariant}
use model_registry_service.Store.World.{Oracle, World, M, gets, ◌>>=◌, reach_database, time_now}
use model_registry_service.Store.Silent.{Silent-reach_database, Silent-time_now}
use model_registry_service.Store.Hoare.{
  Post, Hoare, Hoare-bind, IsStable, Hoare-silent, Hoare-raise_if, Hoare-raise_if_last, Hoare-fact,
  Hoare-or_raise, Hoare-wrapping, Hoare-weaken,
}
use model_registry_service.Store.Variants.{
  row_by_id, has_id, clashes, lacks_text, check_row, update_rows, variant_create, variant_update,
  variant_delete,
}

-- The table holds these rows.
abbrev pub VariantsAre : List TrafficVariant → World → Type 0
VariantsAre rows w = w.variants ≡ rows

pub VariantsAre-stable : (rows : List TrafficVariant) → IsStable (VariantsAre rows)
VariantsAre-stable rows = record { at = λ s p. s.variants ∙ p }

-- The row has met the constraints.
pub record Fits (E : Oracle) (config_id : Uuid) (v : TrafficVariant) (rows : List TrafficVariant)
    : Type 0 where
  pub texts : lacks_text v ≡ false
  pub weight : ltb 100 v.weight ≡ false
  pub name : clashes v.id config_id v.variant_name rows ≡ false

-- An UPDATE has rewritten the row of `v`.
pub record Updated (E : Oracle) (v : TrafficVariant) (rows : List TrafficVariant) (w : World)
    : Type 0 where
  pub row : TrafficVariant
  pub now : Time
  pub found : row_by_id v.id rows ≡ some row
  pub fits : Fits E row.traffic_config_id v rows
  pub table : w.variants ≡ update_rows now v rows

-- An INSERT has added the row `v`.
pub record Created (E : Oracle) (v : TrafficVariant) (rows : List TrafficVariant) (w : World)
    : Type 0 where
  pub fresh : has_id v.id rows ≡ false
  pub fits : Fits E v.traffic_config_id v rows
  pub table : w.variants ≡ rows ++ v ∷ []

-- A DELETE has removed the row.
pub record Deleted (id : Uuid) (rows : List TrafficVariant) (w : World) : Type 0 where
  pub found : has_id id rows ≡ true
  pub table : w.variants ≡ keep (λ r. not (r.id == id)) rows

pub not-eq-false : (b : Bool) → not b ≡ false → b ≡ true
not-eq-false true h = refl
not-eq-false false h = cc

module _ {B : Type 0} {R : B → World → Type 0} {F : World → Type 0}
    {rows : List TrafficVariant} where
  -- A query that reads the table reads these rows.
  pub Hoare-rows :
      (f : List TrafficVariant → M B)
      → Hoare (VariantsAre rows) (f rows) R F
      → Hoare (VariantsAre rows) (gets (λ w. w.variants) >>= f) R F
  unfolding ◌>>=◌
  Hoare-rows f h = record {
    at = λ w p. subst (λ (t : List TrafficVariant). Post R F (f t w)) (sym p) (h.at w p);
  }

module _ (E : Oracle) (rows : List TrafficVariant) where
  abbrev Same : World → Type 0
  Same = VariantsAre rows

  reach : Hoare Same (reach_database E) (λ _. Same) Same
  reach = Hoare-silent (VariantsAre-stable rows) (λ w p. p) (Silent-reach_database E)

  silent_now : Hoare Same (time_now E) (λ _. Same) Same
  silent_now = Hoare-silent (VariantsAre-stable rows) (λ w p. p) (Silent-time_now E)

  check_row_lem :
      (config_id : Uuid) (v : TrafficVariant)
      → Hoare Same (check_row E config_id v rows) (λ _ w. Same w × Fits E config_id v rows) Same
  check_row_lem config_id v =
      Hoare-raise_if (λ w p. p) (lacks_text v) _
        λ texts.
          Hoare-raise_if (λ w p. p) (ltb 100 v.weight) _
            λ weight.
              Hoare-weaken (λ w p. p)
                (λ _ w p. (p.0, record { texts = texts; weight = weight; name = p.1 })) (λ w p. p)
                (Hoare-raise_if_last (λ w p. p) (clashes v.id config_id v.variant_name rows) _)

  pub variant_update_lem :
      (v : TrafficVariant) → Hoare Same (variant_update E v) (λ _. Updated E v rows) Same
  unfolding variant_update
  variant_update_lem v = Hoare-bind (Hoare-wrapping _ reach) λ _. Hoare-rows _ (
      Hoare-or_raise (λ w p. p) _ (row_by_id v.id rows)
        λ row found. Hoare-bind (Hoare-wrapping _ (check_row_lem row.traffic_config_id v)) λ _.
          Hoare-fact λ fits. Hoare-bind silent_now λ now. record {
            at = λ w p. record { row = row; now = now; found = found; fits = fits; table = refl };
          })

  pub variant_create_lem :
      (v : TrafficVariant) → Hoare Same (variant_create E v) (λ _. Created E v rows) Same
  unfolding variant_create
  variant_create_lem v = Hoare-wrapping _ (
      Hoare-bind reach λ _. Hoare-rows _ (
        Hoare-raise_if (λ w p. p) (has_id v.id rows) _
          λ fresh. Hoare-bind (check_row_lem v.traffic_config_id v) λ _.
            Hoare-fact
              λ fits. record { at = λ w p. record { fresh = fresh; fits = fits; table = refl } }))

  pub variant_delete_lem :
      (id : Uuid) → Hoare Same (variant_delete E id) (λ _. Deleted id rows) Same
  unfolding variant_delete
  variant_delete_lem id = Hoare-bind (Hoare-wrapping _ reach) λ _. Hoare-rows _ (
      Hoare-raise_if (λ w p. p) (not (has_id id rows)) _
        λ found. record { at = λ w p. record { found = not-eq-false _ found; table = refl } })
