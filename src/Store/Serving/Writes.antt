-- ===== src/Store/Serving/Writes.antt =====
-- What the statements on the table inference_service do.
use model_registry_service.Base.{◌≡◌, ◌≢◌, refl, sym, ◌∙◌, subst, some, List, [], ◌∷◌, arith}
use model_registry_service.Domain.Traffic.{Uuid, Time}
use model_registry_service.Domain.Serving.{InferenceService}
use model_registry_service.Store.World.{Oracle, World, M, gets, ◌>>=◌}
use model_registry_service.Store.Silent.{Silent-reach_database, Silent-time_now}
use model_registry_service.Store.Hoare.{
  Post, Hoare, Hoare-bind, IsStable, Hoare-silent, Hoare-raise_if, Hoare-or_raise,
  Hoare-or_raise_last, Hoare-wrapping,
}
use model_registry_service.Store.Serving.{
  isvc_row, isvc_overwrite, update_isvcs, isvc_get_by_id, isvc_update, isvc_name_taken,
}

-- The table holds these rows.
abbrev pub ServicesAre : List InferenceService → World → Type 0
ServicesAre rows w = w.services ≡ rows

pub ServicesAre-stable : (rows : List InferenceService) → IsStable (ServicesAre rows)
ServicesAre-stable rows = record { at = λ s p. s.services ∙ p }

-- An UPDATE has rewritten the row of `s`.
pub record Rewritten (p : Uuid) (s : InferenceService) (rows : List InferenceService) (w : World)
    : Type 0 where
  pub row : InferenceService
  pub now : Time
  pub found : isvc_row p s.id rows ≡ some row
  pub table : w.services ≡ update_isvcs now p s rows

pub isvc_row-id :
    (p id : Uuid) (rows : List InferenceService) (s : InferenceService)
    → isvc_row p id rows ≡ some s
    → s.id ≡ id
unfolding isvc_row
isvc_row-id p id [] s h = cc
isvc_row-id p id (r ∷ rows) s h = ground (arith, isvc_row-id p id rows s)

pub isvc_row-update_isvcs_self :
    (now : Time) (p : Uuid) (s row : InferenceService) (rows : List InferenceService)
    → isvc_row p s.id rows ≡ some row
    → isvc_row p s.id (update_isvcs now p s rows) ≡ some (isvc_overwrite now s row)
unfolding isvc_row update_isvcs isvc_overwrite
isvc_row-update_isvcs_self now p s row [] h = cc
isvc_row-update_isvcs_self now p s row (r ∷ rows) h =
    ground (arith, isvc_row-update_isvcs_self now p s row rows)

pub isvc_row-update_isvcs_ne :
    (q id : Uuid) (now : Time) (p : Uuid) (s : InferenceService) (rows : List InferenceService)
    → id ≢ s.id
    → isvc_row q id (update_isvcs now p s rows) ≡ isvc_row q id rows
unfolding isvc_row update_isvcs isvc_overwrite
isvc_row-update_isvcs_ne q id now p s [] h = refl
isvc_row-update_isvcs_ne q id now p s (r ∷ rows) h =
    ground (arith, isvc_row-update_isvcs_ne q id now p s rows h)

module _ {B : Type 0} {R : B → World → Type 0} {F : World → Type 0}
    {rows : List InferenceService} where
  -- A query that reads the table reads these rows.
  Hoare-services :
      (f : List InferenceService → M B)
      → Hoare (ServicesAre rows) (f rows) R F
      → Hoare (ServicesAre rows) (gets (λ w. w.services) >>= f) R F
  unfolding ◌>>=◌
  Hoare-services f h = record {
    at = λ w p. subst (λ (t : List InferenceService). Post R F (f t w)) (sym p) (h.at w p);
  }

module _ (E : Oracle) (rows : List InferenceService) where
  abbrev Same : World → Type 0
  Same = ServicesAre rows

  pub isvc_get_by_id_lem :
      (p id : Uuid)
      → Hoare Same (isvc_get_by_id E p id) (λ s w. Same w × (isvc_row p id rows ≡ some s)) Same
  unfolding isvc_get_by_id
  isvc_get_by_id_lem p id =
      Hoare-bind
        (Hoare-wrapping _
          (Hoare-silent (ServicesAre-stable rows) (λ w p. p) (Silent-reach_database E)))
        λ _. Hoare-services _ (
          Hoare-or_raise_last (λ s. isvc_row p id rows ≡ some s) (λ w p. p) _ (isvc_row p id rows)
            (λ s e. e))

  pub isvc_update_lem :
      (p : Uuid) (s : InferenceService)
      → Hoare Same (isvc_update E p s) (λ _. Rewritten p s rows) Same
  unfolding isvc_update
  isvc_update_lem p s =
      Hoare-bind
        (Hoare-wrapping _
          (Hoare-silent (ServicesAre-stable rows) (λ w p. p) (Silent-reach_database E)))
        λ _. Hoare-services _ (
          Hoare-or_raise (λ w p. p) _ (isvc_row p s.id rows)
            λ row found.
              Hoare-raise_if (λ w p. p)
                (isvc_name_taken s.id row.serving_environment_id s.name rows) _
                λ _.
                  Hoare-bind (Hoare-silent (ServicesAre-stable rows) (λ w p. p) (Silent-time_now E))
                    λ now. record {
                      at = λ w p. record { row = row; now = now; found = found; table = refl };
                    })
