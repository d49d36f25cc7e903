-- ===== src/Traffic/Route/Config.antt =====
-- What GetConfig returns: the configuration asked for, with its rows of the table.
use model_registry_service.Base.{◌≡◌, ◌∙◌, ap, some, List, [], ◌∷◌, arith}
use model_registry_service.Domain.Traffic.{Uuid, TrafficVariant, TrafficConfig}
use model_registry_service.Store.World.{Oracle, World, ◌>>=◌}
use model_registry_service.Store.Silent.{Silent-reach_database}
use model_registry_service.Store.Hoare.{
  Hoare, Hoare-bind, Hoare-silent, Hoare-wrapping, Hoare-pure, Hoare-fact, Hoare-or_raise_last,
}
use model_registry_service.Store.Configs.{config_row, config_get_by_id}
use model_registry_service.Store.Variants.{rows_of, variant_list_by_config}
use model_registry_service.Store.Variants.Writes.{VariantsAre, VariantsAre-stable}
use model_registry_service.Traffic.Route.{get_config}

config_row-id :
    (p id : Uuid) (cs : List TrafficConfig) (c : TrafficConfig)
    → config_row p id cs ≡ some c
    → c.id ≡ id
unfolding config_row
config_row-id p id [] c' h = cc
config_row-id p id (c ∷ cs) c' h = ground (arith, config_row-id p id cs c')

module _ (E : Oracle) (rows : List TrafficVariant) where
  abbrev Same : World → Type 0
  Same = VariantsAre rows

  -- The configuration is the one asked for, and holds its variants.
  abbrev pub IsLoaded : Uuid → TrafficConfig → Type 0
  IsLoaded id c = (c.id ≡ id) × (c.variants ≡ rows_of id rows)

  get_row_lem :
      (p id : Uuid) → Hoare Same (config_get_by_id E p id) (λ c w. Same w × (c.id ≡ id)) Same
  unfolding config_get_by_id ◌>>=◌
  get_row_lem p id =
      Hoare-bind
        (Hoare-wrapping _
          (Hoare-silent (VariantsAre-stable rows) (λ w h. h) (Silent-reach_database E)))
        λ _. record {
          at = λ w h.
              (Hoare-or_raise_last (λ c. c.id ≡ id) (λ w h. h) _ (config_row p id w.configs)
                  (config_row-id p id w.configs)).at
                w h;
        }

  list_lem :
      (id : Uuid)
      → Hoare Same (variant_list_by_config E id) (λ vs w. Same w × (vs ≡ rows_of id rows)) Same
  unfolding variant_list_by_config
  list_lem id =
      Hoare-bind
        (Hoare-wrapping _
          (Hoare-silent (VariantsAre-stable rows) (λ w h. h) (Silent-reach_database E)))
        λ _. record { at = λ w h. (h, ap (rows_of id) h) }

  pub get_config_lem :
      (p id : Uuid) → Hoare Same (get_config E p id) (λ c w. Same w × IsLoaded id c) Same
  unfolding get_config
  get_config_lem p id = Hoare-bind (get_row_lem p id) λ c. Hoare-fact λ e.
      Hoare-bind (list_lem c.id)
        λ vs. Hoare-fact λ l. Hoare-pure _ λ w h. (h, (e, l ∙ ap (λ (i : Uuid). rows_of i rows) e))
